-- ===== src/Checkin/Days.antt =====
-- That `computeStreak` ends, and what it counts (server/controllers/checkinController.js).
use support_block_miner.Checkin.Streak.{
  has_date, count_days, streak_at, compute_streak, is_confirmed_of,
}
use support_block_miner.Checkin.State.{DailyCheckin}
use support_block_miner.Base.{
  some, true, false, inl, inr, zero, suc, ◌+◌, ◌≤◌, ◌-◌, ◌≡◌, arith, ℕ, List, Bool-cases, ap, ◌∙◌,
  refl, ◌⊎◌, map, keep,
}
use support_block_miner.Base.Table.{Table, IsTable}

-- The days from `last` back, as many as `n`, are dates, and the day before them is none.
abbrev pub IsRun : List ℕ → ℕ → ℕ → Type 0
IsRun dates last zero = has_date dates last ≡ false
IsRun dates last (suc n) = (has_date dates last ≡ true) × IsRun dates (last - 1) n

after_zero :
    (dates : List ℕ) (day : ℕ) → has_date dates day ≡ true → has_date dates 0 ≡ false → 1 ≤ day
after_zero dates zero h h0 = absurd (ground arith)
after_zero dates (suc day) h h0 = omega arith

-- With fuel for every day up to the cursor, the loop ends, and adds to the streak the length of the run.
count_days-IsRun :
    (fuel : ℕ) (dates : List ℕ) (cursor streak : ℕ)
    → suc cursor ≤ fuel
    → has_date dates 0 ≡ false
    → (n : ℕ) × (count_days fuel dates cursor streak ≡ some (streak + n)) × IsRun dates cursor n
unfolding count_days
count_days-IsRun zero dates cursor streak enough zero_free = absurd (omega (arith, enough))
count_days-IsRun (suc fuel) dates cursor streak enough zero_free =
    elim (Bool-cases (has_date dates cursor)) [
      | inr out ↦ rw (out, count_days) (0, ap some (omega arith), out)
      | inl inside ↦
          let later = after_zero dates cursor inside zero_free in
          let (n, ends, run) =
            count_days-IsRun fuel dates (cursor - 1) (streak + 1) (omega (arith, enough, later))
              zero_free in
          rw (inside, count_days) (suc n, ends ∙ ap some (omega arith), (inside, run))
    ]

-- The longest run of dates that ends today or, where today is no date, yesterday.
abbrev pub IsStreak : List ℕ → ℕ → ℕ → Type 0
IsStreak dates today n =
    ((has_date dates today ≡ true) × IsRun dates today n)
    ⊎ ((has_date dates today ≡ false) × IsRun dates (today - 1) n)

streak_at-IsStreak :
    (fuel : ℕ) (dates : List ℕ) (today : ℕ)
    → suc today ≤ fuel
    → has_date dates 0 ≡ false
    → (n : ℕ) × (streak_at fuel dates today ≡ some n) × IsStreak dates today n
unfolding streak_at
streak_at-IsStreak fuel dates today enough zero_free = elim (Bool-cases (has_date dates today)) [
  | inl inside ↦
      let (n, ends, run) = count_days-IsRun fuel dates today 0 enough zero_free in
      rw (inside, streak_at) (n, ends ∙ ap some (omega arith), inl (refl, run))
  | inr outside ↦ elim (Bool-cases (has_date dates (today - 1))) [
    | inr neither ↦ rw (outside, neither, streak_at) (0, refl, inr (refl, neither))
    | inl before ↦
        let (n, ends, run) =
          count_days-IsRun fuel dates (today - 1) 0 (omega (arith, enough)) zero_free in
        rw (outside, before, streak_at) (n, ends ∙ ap some (omega arith), inr (refl, run))
  ]
]

-- The dates of the confirmed check-ins of a user.
abbrev pub dates_of : ℕ → List DailyCheckin → List ℕ
dates_of u rows = map (λ r. r.checkin_date) (keep (is_confirmed_of u) rows)

-- The streak is always computed: the loop ends once it has looked at each day from today back, and gives
-- the length of the longest run of confirmed days that ends today or, where today is not confirmed,
-- yesterday. No check-in is from before the first day of the count.
pub compute_streak-IsStreak :
    (db : Table DailyCheckin) (laws : IsTable db) (fuel u today : ℕ) (rows : List DailyCheckin)
    → suc today ≤ fuel
    → has_date (dates_of u rows) 0 ≡ false
    → (n : ℕ) × (compute_streak db fuel u today rows ≡ some n) × IsStreak (dates_of u rows) today n
unfolding compute_streak
compute_streak-IsStreak db laws fuel u today rows enough zero_free =
    rw (laws.find_many_rows (is_confirmed_of u) rows)
      (streak_at-IsStreak fuel (dates_of u rows) today enough zero_free)
