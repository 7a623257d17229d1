-- ===== src/Shortlinks/Skip.antt =====
-- That the steps of a run can be skipped (server/controllers/shortlinkController.js).
use support_block_miner.Shortlinks.State.{ShortlinkCompletion, Links, LinksDb, IsLinksDb}
use support_block_miner.Shortlinks.Steps.{
  run_completed, is_of, finish, reward_miner, complete_step, check_step, complete_shortlink_step,
  reset_daily_if_needed, needs_reset, has_reached_limit, too_fast, save_session, reset_day,
  begin_session, new_completion, start_shortlink, start_session, reward_item, StepAnswer,
}
use support_block_miner.Shop.Purchase.{CatalogMiner}
use support_block_miner.Base.Http.{accepted, Response}
use support_block_miner.Base.Text.{same_text, same_text_refl}
use support_block_miner.Base.{
  some, true, false, refl, ◌+◌, ◌≤◌, ◌≡◌, arith, ℕ, is_some, String, ap, sym, [], ◌∷◌, inl, inr,
  if◌then◌else◌, List, All, Option-cases, map, All-imp, Bool-cases, ◌++◌, All-append,
}
use support_block_miner.Base.Int.{pos, ℤ}
use mathlib.Core.Path.{subst}
use support_block_miner.Base.Table.{HasUnique, same-by-key, All-Memᴰ}
use mathlib.Core.List.{Memᴰ}
use support_block_miner.Shortlinks.Daily.{Misses, update-not-Misses, found-not-Misses}
use support_block_miner.Database.{UserInventory}

-- The rows of the user have the session, and no run of the day.
abbrev pub IsStarted : ℕ → ℕ → String → ShortlinkCompletion → Type 0
IsStarted u now token c =
    is_of u c ≡ true
    → (c.session_token ≡ some token) × (c.step_started_at ≡ some now) × (c.daily_runs ≡ 0)

map-HaveNoRun :
    (k : ShortlinkCompletion) (u now : ℕ) (cs : List ShortlinkCompletion)
    → is_of u k ≡ true
    → All
        (λ c. is_of u c ≡ true → c.daily_runs ≡ 0)
        (map (λ c. if is_of k.user_id c then reset_day now c else c) cs)
map-HaveNoRun k u now [] mine = tt
map-HaveNoRun k u now (c ∷ cs) mine = (
  elim (Bool-cases (is_of k.user_id c)) [
    | inr off ↦ rw off (λ h. absurd (ground arith))
    | inl on ↦ rw on (λ h. refl)
  ],
  map-HaveNoRun k u now cs mine,
)

map-IsStarted :
    (u now : ℕ) (token : String) (cs : List ShortlinkCompletion)
    → All (λ c. is_of u c ≡ true → c.daily_runs ≡ 0) cs
    → All (IsStarted u now token) (map (λ c. if is_of u c then begin_session token now c else c) cs)
map-IsStarted u now token [] h = tt
map-IsStarted u now token (c ∷ cs) h = (
  elim (Bool-cases (is_of u c)) [
    | inr off ↦ rw off (λ hit. absurd (let k = off in ground arith))
    | inl on ↦ rw on (λ hit. (refl, refl, h.0 on))
  ],
  map-IsStarted u now token cs h.1,
)

Memᴰ-last : {A : Type 0} (xs : List A) (x : A) → Memᴰ x (xs ++ x ∷ [])
Memᴰ-last [] x = Memᴰ.head refl
Memᴰ-last (y ∷ xs) x = Memᴰ.tail (Memᴰ-last xs x)

accepted-inj : {A : Type 0} {a b : A} → accepted a ≡ accepted b → a ≡ b
accepted-inj h = cc

module _ (db : LinksDb) (laws : IsLinksDb db) (token_of : ℕ → ℤ → ℕ → String) where
  -- The answer names the machine, and the user has one more of it.
  abbrev pub IsFinished : ℕ → CatalogMiner → Links → Response StepAnswer × Links → Type 0
  IsFinished u m l after =
      (after.0 ≡ accepted (run_completed m.name))
      × ((item : UserInventory) × (item.user_id ≡ u)
          × (item.miner_id ≡ some m.id)
          × (after.1.inventory ≡ l.inventory ++ item ∷ []))

  finish-reward :
      (id now u : ℕ) (m : CatalogMiner) (l : Links)
      → reward_miner db token_of l ≡ some m
      → IsFinished u m l (finish db token_of id now u l)
  unfolding finish
  finish-reward id now u m l reward =
      rw (reward, finish)
        (
          refl,
          (
            reward_item id now u m,
            refl,
            refl,
            laws.inventory.create_rows (reward_item id now u m) l.inventory,
          ),
        )

  -- A started session finishes with the third step, whatever its `currentStep` is.
  complete_started :
      (id now now' u : ℕ) (token : String) (m : CatalogMiner) (c : ShortlinkCompletion) (l : Links)
      → db.completions.find (is_of u) l.completions ≡ some c
      → (c.session_token ≡ some token) × (c.step_started_at ≡ some now) × (c.daily_runs ≡ 0)
      → now + 8000 ≤ now'
      → reward_miner db token_of l ≡ some m
      → IsFinished u m l
          (complete_shortlink_step db token_of id now' u (some (pos 3)) (some token) false l)
  unfolding complete_shortlink_step check_step complete_step reset_daily_if_needed
  complete_started id now now' u token m c l there (session, started, none_yet) later reward =
      let open_session : is_some c.session_token ≡ true = ap is_some session in
      let same_day : needs_reset now' c ≡ false = ground arith in
      let free : has_reached_limit db token_of (some c) ≡ false = ground arith in
      let slow : too_fast c.step_started_at now' ≡ false =
        subst (λ o. too_fast o now' ≡ false) (sym started) (ground arith) in
      let right : same_text c.session_token (some token) ≡ true =
        subst (λ o. same_text o (some token) ≡ true) (sym session) (same_text_refl (some token)) in
      rw
        (
          there, open_session, complete_shortlink_step, same_day, check_step, free, right, slow,
          complete_step,
        )
        (finish-reward id now' u m l reward)

  -- The rows of the user have no run of the day.
  abbrev HaveNoRun : ℕ → List ShortlinkCompletion → Type 0
  HaveNoRun u cs = All (λ c. is_of u c ≡ true → c.daily_runs ≡ 0) cs

  reset-HaveNoRun :
      (now u : ℕ) (l : Links)
      → HasUnique (λ (c : ShortlinkCompletion). c.user_id) l.completions
      → let after =
          reset_daily_if_needed db token_of now (db.completions.find (is_of u) l.completions) l in
        has_reached_limit db token_of after.0 ≡ false → HaveNoRun u after.1.completions
  unfolding reset_daily_if_needed
  reset-HaveNoRun now u l ids = elim (Option-cases (db.completions.find (is_of u) l.completions)) [
    | inl new ↦
        rw (new, reset_daily_if_needed)
          (λ free.
            All-imp (λ c. is_of u c ≡ false) (λ c. is_of u c ≡ true → c.daily_runs ≡ 0)
              l.completions (λ c miss hit. absurd (ground arith))
              (laws.completions.find_none (is_of u) l.completions new))
    | inr (c, there) ↦
        let (hit, member) = laws.completions.find_some _ _ _ there in
        elim (Bool-cases (needs_reset now c)) [
          | inr same_day ↦
              rw (there, same_day, reset_daily_if_needed)
                (λ free.
                  All-imp (λ r. r.user_id ≡ c.user_id → r ≡ c)
                    (λ r. is_of u r ≡ true → r.daily_runs ≡ 0) l.completions
                    (λ r same mine.
                      (let e = same (ground arith) in
                        let e' = ap (λ x. x.daily_runs) e in ground arith))
                    (same-by-key (λ r. r.user_id) c l.completions ids member))
          | inl new_day ↦
              rw (there, new_day, reset_daily_if_needed)
                (λ free.
                  rw (laws.completions.update_rows (is_of c.user_id) (reset_day now) l.completions)
                    (map-HaveNoRun c u now l.completions hit))
        ]
  ]

  found_in :
      (u : ℕ) (rows : List ShortlinkCompletion)
      → ¬ Misses u rows
      → (c : ShortlinkCompletion) × (db.completions.find (is_of u) rows ≡ some c)
  found_in u rows there = elim (Option-cases (db.completions.find (is_of u) rows)) [
    | inl gone ↦ absurd (there (laws.completions.find_none (is_of u) rows gone))
    | inr found_row ↦ found_row
  ]

  save_session-IsStarted :
      (now u : ℕ) (token : String) (cs : List ShortlinkCompletion)
      → HaveNoRun u cs
      → All (IsStarted u now token) (save_session db token_of now u token cs)
        × ((c : ShortlinkCompletion) × (db.completions.find
                (is_of u)
                (save_session db token_of now u token cs)
              ≡ some c))
  unfolding save_session
  save_session-IsStarted now u token cs none_yet =
      elim (Option-cases (db.completions.find (is_of u) cs)) [
        | inl new ↦
            let c = begin_session token now (new_completion u) in
            rw (new, save_session, laws.completions.create_rows c cs)
              (
                All-append (IsStarted u now token) cs (c ∷ [])
                    (All-imp (λ c. is_of u c ≡ false) (IsStarted u now token) cs
                      (λ c miss hit. absurd (ground arith))
                      (laws.completions.find_none (is_of u) cs new))
                    ((λ hit. (refl, refl, refl)), tt),
                found_in u (cs ++ c ∷ []) (λ miss.
                    let last =
                      All-Memᴰ (λ c. is_of u c ≡ false) (cs ++ c ∷ []) miss (Memᴰ-last cs c) in
                    ground arith),
              )
        | inr (c, there) ↦
            rw (there, save_session)
              (
                rw (laws.completions.update_rows (is_of u) (begin_session token now) cs)
                    (map-IsStarted u now token cs none_yet),
                found_in u (db.completions.update (is_of u) (begin_session token now) cs) (
                    update-not-Misses db laws token_of (is_of u) (begin_session token now) u cs
                      (λ c. refl) (found-not-Misses db laws token_of u c cs there)),
              )
      ]

  start_session-IsStarted :
      (now u : ℕ) (token : String) (l : Links)
      → HasUnique (λ (c : ShortlinkCompletion). c.user_id) l.completions
      → (start_shortlink db token_of now u l).0 ≡ accepted token
      → let cs = (start_shortlink db token_of now u l).1.completions in
        All (IsStarted u now token) cs
        × ((c : ShortlinkCompletion) × (db.completions.find (is_of u) cs ≡ some c))
  unfolding start_shortlink start_session
  start_session-IsStarted now u token l ids =
      let after =
        reset_daily_if_needed db token_of now (db.completions.find (is_of u) l.completions) l in
      elim (Bool-cases (has_reached_limit db token_of after.0)) [
        | inl full ↦ rw (full, start_shortlink, start_session) (λ h. absurd (ground arith))
        | inr free ↦
            rw (free, start_shortlink, start_session)
              (λ h.
                let same : token_of u (pos 1) now ≡ token = accepted-inj h in
                let rows =
                  save_session db token_of now u (token_of u (pos 1) now) after.1.completions in
                subst
                  (λ t.
                    All (IsStarted u now t) rows
                    × ((c : ShortlinkCompletion) × (db.completions.find (is_of u) rows ≡ some c)))
                  same
                  (save_session-IsStarted now u (token_of u (pos 1) now) after.1.completions
                    (reset-HaveNoRun now u l ids free)))
      ]

  -- Eight seconds after the start of a session, a request for the third step with the token of the start
  -- completes the run and gives the machine: the first two steps are not asked for. A reward is
  -- configured, and no two rows are of one user.
  pub start_shortlink-complete_shortlink_step :
      (id now now' u : ℕ) (token : String) (m : CatalogMiner) (l : Links)
      → HasUnique (λ (c : ShortlinkCompletion). c.user_id) l.completions
      → let started = start_shortlink db token_of now u l in
        started.0 ≡ accepted token
        → now + 8000 ≤ now'
        → reward_miner db token_of started.1 ≡ some m
        → IsFinished u m started.1 (
            complete_shortlink_step db token_of id now' u
              (some (pos 3))
              (some token)
              false
              started.1)
  start_shortlink-complete_shortlink_step id now now' u token m l ids started later reward =
      let (all_started, (c, there)) = start_session-IsStarted now u token l ids started in
      let (hit, member) = laws.completions.find_some _ _ _ there in
      complete_started id now now' u token m c (start_shortlink db token_of now u l).1 there
        (All-Memᴰ (IsStarted u now token) (start_shortlink db token_of now u l).1.completions
          all_started member hit)
        later reward
