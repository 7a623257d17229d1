-- ===== src/Shortlinks/Daily.antt =====
-- One run of the shortlink in a day (server/controllers/shortlinkController.js).
use support_block_miner.Shortlinks.State.{ShortlinkCompletion, Links, LinksDb, IsLinksDb}
use support_block_miner.Shortlinks.Steps.{
  run_completed, is_of, today_midnight_utc, finish_run, finish, reward_miner, complete_step,
  check_step, complete_shortlink_step, start_shortlink, start_session, reset_daily_if_needed,
  needs_reset, reset_day, has_reached_limit, is_last_step, too_fast, or_time, is_before,
}
use support_block_miner.Base.Table.{All-Memᴰ}
use support_block_miner.Base.Http.{accepted}
use support_block_miner.Base.Text.{same_text}
use support_block_miner.Base.{
  none, some, true, false, [], ◌∷◌, inl, inr, refl, suc, ◌≤◌, ◌≡◌, ◌||◌, if◌then◌else◌, arith, ℕ,
  not, is_some, List, Bool, All, map, String, Bool-cases, Option-cases, Option,
}
use support_block_miner.Base.Int.{ℤ}
use mathlib.Core.Path.{subst}

-- No row is of the user.
abbrev pub Misses : ℕ → List ShortlinkCompletion → Type 0
Misses u cs = All (λ c. is_of u c ≡ false) cs

-- The rows of the user have a run that was completed at the time.
abbrev pub HaveRun : ℕ → ℕ → List ShortlinkCompletion → Type 0
HaveRun u now cs = All (λ c. is_of u c ≡ true → (1 ≤ c.daily_runs) × (c.completed_at ≡ some now)) cs

module _ (q : ShortlinkCompletion → Bool) (f : ShortlinkCompletion → ShortlinkCompletion)
    (same : (c : ShortlinkCompletion) → (f c).user_id ≡ c.user_id) where
  map-Misses :
      (u : ℕ) (cs : List ShortlinkCompletion)
      → Misses u (map (λ c. if q c then f c else c) cs)
      → Misses u cs
  map-Misses u [] h = tt
  map-Misses u (c ∷ cs) h = (
    elim (Bool-cases (q c)) [
      | inr off ↦ (let k = h.0 in ground arith)
      | inl on ↦ (let k = h.0 in let e = same c in ground arith)
    ],
    map-Misses u cs h.1,
  )

map-HaveRun :
    (u now : ℕ) (cs : List ShortlinkCompletion)
    → HaveRun u now (map (λ c. if is_of u c then finish_run now c else c) cs)
map-HaveRun u now [] = tt
map-HaveRun u now (c ∷ cs) = (
  elim (Bool-cases (is_of u c)) [
    | inr off ↦ rw off (λ h. absurd (let k = off in ground arith))
    | inl on ↦ rw on (λ h. (ground arith, refl))
  ],
  map-HaveRun u now cs,
)

module _ (db : LinksDb) (laws : IsLinksDb db) (token_of : ℕ → ℤ → ℕ → String) where
  pub found-not-Misses :
      (u : ℕ) (c : ShortlinkCompletion) (cs : List ShortlinkCompletion)
      → db.completions.find (is_of u) cs ≡ some c
      → ¬ Misses u cs
  found-not-Misses u c cs there h =
      let (hit, member) = laws.completions.find_some _ _ _ there in
      let miss = All-Memᴰ (λ c. is_of u c ≡ false) cs h member in ground arith

  pub update-not-Misses :
      (q : ShortlinkCompletion → Bool) (f : ShortlinkCompletion → ShortlinkCompletion) (u : ℕ)
      (cs : List ShortlinkCompletion)
      → ((c : ShortlinkCompletion) → (f c).user_id ≡ c.user_id)
      → ¬ Misses u cs
      → ¬ Misses u (db.completions.update q f cs)
  update-not-Misses q f u cs same there =
      rw (laws.completions.update_rows q f cs) (λ h. there (map-Misses q f same u cs h))

  -- What a completed run leaves.
  abbrev pub Ran : ℕ → ℕ → Links → Type 0
  Ran u now l = (¬ Misses u l.completions) × HaveRun u now l.completions

  finish-Ran :
      (id now u : ℕ) (name : String) (l : Links)
      → ¬ Misses u l.completions
      → (finish db token_of id now u l).0 ≡ accepted (run_completed name)
      → Ran u now (finish db token_of id now u l).1
  unfolding finish
  finish-Ran id now u name l there = elim (Option-cases (reward_miner db token_of l)) [
    | inl no_reward ↦ rw (no_reward, finish) (λ h. absurd (ground arith))
    | inr (m, reward) ↦
        rw (reward, finish)
          (λ h. (
            update-not-Misses (is_of u) (finish_run now) u l.completions (λ c. refl) there,
            rw (laws.completions.update_rows (is_of u) (finish_run now) l.completions)
                (map-HaveRun u now l.completions),
          ))
  ]

  complete_step-Ran :
      (id now u : ℕ) (step : Option ℤ) (name : String) (l : Links)
      → ¬ Misses u l.completions
      → (complete_step db token_of id now u step l).0 ≡ accepted (run_completed name)
      → Ran u now (complete_step db token_of id now u step l).1
  unfolding complete_step
  complete_step-Ran id now u none name l there = λ h. absurd (ground arith)
  complete_step-Ran id now u (some step) name l there = elim (Bool-cases (is_last_step step)) [
    | inr more ↦ rw (more, complete_step) (λ h. absurd (ground arith))
    | inl last ↦ rw (last, complete_step) (finish-Ran id now u name l there)
  ]

  check_step-Ran :
      (id now u : ℕ) (step : Option ℤ) (token : Option String) (scripted : Bool) (name : String)
      (c : ShortlinkCompletion) (fresh : Option ShortlinkCompletion) (l : Links)
      → ¬ Misses u l.completions
      → (check_step db token_of id now u step token scripted c (fresh, l)).0
        ≡ accepted (run_completed name)
      → Ran u now (check_step db token_of id now u step token scripted c (fresh, l)).1
  unfolding check_step
  check_step-Ran id now u step token scripted name c fresh l there =
      elim (Bool-cases (has_reached_limit db token_of fresh)) [
        | inl full ↦ rw (full, check_step) (λ h. absurd (ground arith))
        | inr free ↦
            elim (Bool-cases (
              not (same_text c.session_token token)
              || scripted
              || too_fast c.step_started_at now)) [
                | inl caught ↦ rw (free, caught, check_step) (λ h. absurd (ground arith))
                | inr good ↦
                    rw (free, good, check_step) (complete_step-Ran id now u step name l there)
              ]
      ]

  reset-not-Misses :
      (now u : ℕ) (o : Option ShortlinkCompletion) (l : Links)
      → ¬ Misses u l.completions
      → ¬ Misses u (reset_daily_if_needed db token_of now o l).1.completions
  unfolding reset_daily_if_needed
  reset-not-Misses now u none l there = there
  reset-not-Misses now u (some c) l there = elim (Bool-cases (needs_reset now c)) [
    | inr same_day ↦ rw (same_day, reset_daily_if_needed) there
    | inl new_day ↦
        rw (new_day, reset_daily_if_needed)
          (update-not-Misses (is_of c.user_id) (reset_day now) u l.completions (λ c. refl) there)
  ]

  complete_shortlink_step-Ran :
      (id now u : ℕ) (step : Option ℤ) (token : Option String) (scripted : Bool) (name : String)
      (l : Links)
      → (complete_shortlink_step db token_of id now u step token scripted l).0
        ≡ accepted (run_completed name)
      → Ran u now (complete_shortlink_step db token_of id now u step token scripted l).1
  unfolding complete_shortlink_step
  complete_shortlink_step-Ran id now u step token scripted name l =
      elim (Option-cases (db.completions.find (is_of u) l.completions)) [
        | inl unknown ↦ rw (unknown, complete_shortlink_step) (λ h. absurd (ground arith))
        | inr (c, there) ↦ elim (Bool-cases (is_some c.session_token)) [
          | inr closed ↦ rw (there, closed, complete_shortlink_step) (λ h. absurd (ground arith))
          | inl session ↦
              rw (there, session, complete_shortlink_step)
                (check_step-Ran id now u step token scripted name c
                  (reset_daily_if_needed db token_of now (some c) l).0
                  (reset_daily_if_needed db token_of now (some c) l).1
                  (reset-not-Misses now u (some c) l (found-not-Misses u c l.completions there)))
        ]
      ]

  start-Ran :
      (now now' u : ℕ) (token : String) (l : Links)
      → Ran u now l
      → (start_shortlink db token_of now' u l).0 ≡ accepted token
      → suc now ≤ today_midnight_utc now'
  unfolding start_shortlink start_session reset_daily_if_needed
  start-Ran now now' u token l ran =
      elim (Option-cases (db.completions.find (is_of u) l.completions)) [
        | inl unknown ↦ absurd (ran.0 (laws.completions.find_none (is_of u) l.completions unknown))
        | inr (c, there) ↦
            let (hit, member) = laws.completions.find_some _ _ _ there in
            let (run, stamp) =
              All-Memᴰ (λ c. is_of u c ≡ true → (1 ≤ c.daily_runs) × (c.completed_at ≡ some now))
                l.completions ran.1 member hit in
            elim (Bool-cases (needs_reset now' c)) [
              | inr same_day ↦
                  let full : has_reached_limit db token_of (some c) ≡ true = ground arith in
                  rw (there, same_day, full, start_shortlink, start_session, reset_daily_if_needed)
                    (λ h. absurd (ground arith))
              | inl new_day ↦ λ h.
                  (let before : is_before (or_time (some now) c.reset_at) (today_midnight_utc now')
                        ≡ true =
                      subst (λ o. is_before (or_time o c.reset_at) (today_midnight_utc now') ≡ true)
                        stamp (ground arith) in
                    ground arith)
            ]
      ]

  -- After a completed run, which is what gives a machine, the user can start a session again only on a
  -- later day in UTC: the midnight before the start is after the run.
  pub complete_shortlink_step-start :
      (id now now' u : ℕ) (step : Option ℤ) (token : Option String) (scripted : Bool)
      (name token' : String) (l : Links)
      → let done = complete_shortlink_step db token_of id now u step token scripted l in
        done.0 ≡ accepted (run_completed name)
        → (start_shortlink db token_of now' u done.1).0 ≡ accepted token'
        → suc now ≤ today_midnight_utc now'
  complete_shortlink_step-start id now now' u step token scripted name token' l done started =
      start-Ran now now' u token' _
        (complete_shortlink_step-Ran id now u step token scripted name l done) started
