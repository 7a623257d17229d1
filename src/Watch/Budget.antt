-- ===== src/Watch/Budget.antt =====
-- What a user has had for watching, against the time that has passed (server/controllers/sessionController.js,
-- server/controllers/autoMiningGpuController.js, server/controllers/youtubeController.js).
use support_block_miner.Watch.State.{Viewer, Watch, WatchDb, IsWatchDb, AutoMiningGpu, YoutubeWatch}
use support_block_miner.Watch.Heartbeat.{is_too_fast}
use support_block_miner.Base.Table.{HasUnique, sum_by, All-Memᴰ, All-map-imp, same-by-key}
use support_block_miner.Base.{
  none, some, true, false, inl, inr, ◌==◌, ◌+◌, ◌≤◌, ◌*◌, ◌≡◌, ◌&&◌, if◌then◌else◌, arith, ℕ,
  Option, All, ap, ◌∙◌, Bool-cases, sym, All-zip,
}
use support_block_miner.Base.Int.{pos, ◌+ℤ◌, ◌≤ℤ◌, ℤ, int_laws, pos_part, neg_part}
use mathlib.Core.Path.{subst}

-- The seconds that a reward has cost, 800 for one: 8000 milliseconds for the 10 of a heartbeat.
abbrev pub gpu_cost : ℕ → AutoMiningGpu → ℤ
gpu_cost u g = if g.user_id == u && g.is_claimed then pos 240_000 else pos 0

abbrev pub video_cost : ℕ → YoutubeWatch → ℤ
video_cost u y = if y.user_id == u then pos 48_000 else pos 0

abbrev pub spent : ℕ → Watch → ℤ
spent u w = sum_by (gpu_cost u) w.gpus +ℤ sum_by (video_cost u) w.history

abbrev pub seconds : Viewer → ℕ
seconds v = v.yt_seconds_balance + v.auto_mining_seconds_balance

-- The seconds of the balances and those spent, against the time from `since` to the last heartbeat.
abbrev pub InTime : ℕ → Option ℕ → ℕ → ℤ → Type 0
InTime since none s cost = pos (800 * s) +ℤ cost ≤ℤ pos 0
InTime since (some last) s cost = pos (800 * s + since) +ℤ cost ≤ℤ pos (last + 8000)

abbrev pub IsInTime : ℕ → Watch → Viewer → Type 0
IsInTime since w v = InTime since v.last_heartbeat_at (seconds v) (spent v.id w)

-- The keys are unique, and no user has had more than the time allows.
pub record IsTimed (since : ℕ) (w : Watch) : Type 0 where
  pub viewer_ids : HasUnique (λ (v : Viewer). v.id) w.viewers
  pub gpu_ids : HasUnique (λ (g : AutoMiningGpu). g.id) w.gpus
  pub in_time : All (IsInTime since w) w.viewers

-- A reward costs what it takes from the balance.
pub InTime-pay :
    (since : ℕ) (last : Option ℕ) (s s' : ℕ) (cost cost' : ℤ)
    → pos (800 * s') +ℤ cost' ≡ pos (800 * s) +ℤ cost
    → InTime since last s cost
    → InTime since last s' cost'
InTime-pay since none s s' cost cost' same h =
    omega (int_laws, ap pos_part same, ap neg_part same, h)
InTime-pay since (some last) s s' cost cost' same h =
    omega (int_laws, ap pos_part same, ap neg_part same, h)

-- A heartbeat counts at most once in 8 seconds.
pub InTime-beat :
    (since now : ℕ) (last : Option ℕ) (s : ℕ) (cost : ℤ)
    → since ≤ now
    → is_too_fast last now ≡ false
    → InTime since last s cost
    → InTime since (some now) (s + 10) cost
InTime-beat since now none s cost later slow h = omega (int_laws, h, later)
InTime-beat since now (some last) s cost later slow h =
    let gap : last + 8000 ≤ now = ground arith in omega (int_laws, h, gap)

module _ (db : WatchDb) (laws : IsWatchDb db) (since : ℕ) where
  -- The payment of a reward: the balance of the user falls by what the reward costs.
  pub pay-IsInTime :
      (f : Viewer → Viewer) (u : ℕ) (w w' : Watch) (cost : ℤ) {v : Viewer}
      → HasUnique (λ (x : Viewer). x.id) w.viewers
      → db.viewers.find (λ x. x.id == u) w.viewers ≡ some v
      → ((x : Viewer) → (f x).id ≡ x.id)
      → (f v).last_heartbeat_at ≡ v.last_heartbeat_at
      → pos (800 * seconds (f v)) +ℤ cost ≡ pos (800 * seconds v)
      → ((x : ℕ) → spent x w' ≡ spent x w +ℤ (if x == u then cost else pos 0))
      → All (IsInTime since w) w.viewers
      → All (IsInTime since w') (db.viewers.update (λ x. x.id == u) f w.viewers)
  pay-IsInTime f u w w' cost {v} ids there same_id same_beat price costs h =
      let (hit, member) = laws.viewers.find_some _ _ _ there in
      let own : (v.id == u) ≡ true = hit in
      let before = All-Memᴰ (IsInTime since w) w.viewers h member in
      let level : spent v.id w' ≡ spent v.id w +ℤ cost =
        costs v.id ∙ ap (λ b. spent v.id w +ℤ (if b then cost else pos 0)) own in
      let sum : pos (800 * seconds (f v)) +ℤ (spent v.id w +ℤ cost)
          ≡ pos (800 * seconds v) +ℤ spent v.id w =
        omega (int_laws, ap pos_part price, ap neg_part price) in
      let paid : IsInTime since w' (f v) =
        rw (same_id v, same_beat, level)
          (InTime-pay since v.last_heartbeat_at (seconds v) (seconds (f v)) (spent v.id w)
            (spent v.id w +ℤ cost) sum before) in
      rw (laws.viewers.update_rows (λ x. x.id == u) f w.viewers) (
        All-map-imp (λ x. IsInTime since w x × (x.id ≡ v.id → x ≡ v)) (IsInTime since w')
          (λ x. if x.id == u then f x else x) w.viewers
          (λ x p. elim (Bool-cases (x.id == u)) [
            | inr other ↦
                let level = costs x.id in
                rw other (
                  subst (λ c. InTime since x.last_heartbeat_at (seconds x) c)
                    (sym (level ∙ rw other (omega int_laws))) p.0)
            | inl mine ↦
                rw mine (subst (λ y. IsInTime since w' (f y)) (sym (p.1 (ground arith))) paid)
          ])
          (All-zip (IsInTime since w) (λ x. x.id ≡ v.id → x ≡ v) w.viewers h
            (same-by-key (λ x. x.id) v w.viewers ids member)))
