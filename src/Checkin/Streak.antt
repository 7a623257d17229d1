-- ===== src/Checkin/Streak.antt =====
-- `computeStreak` (server/controllers/checkinController.js).
use support_block_miner.Checkin.State.{DailyCheckin, is_confirmed}
use support_block_miner.Base.{
  none, some, false, [], ◌∷◌, zero, suc, ◌==◌, ◌+◌, ◌-◌, ◌&&◌, ◌||◌, if◌then◌else◌, ℕ, List, Bool,
  Option, map,
}
use support_block_miner.Base.Table.{Table}

-- `dates.has(day)`
abbrev pub has_date : List ℕ → ℕ → Bool
has_date [] day = false
has_date (d ∷ ds) day = d == day || has_date ds day

-- `while (dates.has(cursor)) …`, at most as often as the fuel says.
unfoldable pub count_days : ℕ → List ℕ → ℕ → ℕ → Option ℕ
count_days zero dates cursor streak = none
count_days (suc fuel) dates cursor streak =
    let rest = count_days fuel dates (cursor - 1) (streak + 1) in
    if has_date dates cursor then rest else some streak

-- From the set of the dates on.
unfoldable pub streak_at : ℕ → List ℕ → ℕ → Option ℕ
unfolding count_days
streak_at fuel dates today =
    if has_date dates today
    then count_days fuel dates today 0
    else if has_date dates (today - 1)
    then count_days fuel dates (today - 1) 0
    else some 0

abbrev pub is_confirmed_of : ℕ → DailyCheckin → Bool
is_confirmed_of u r = r.user_id == u && is_confirmed r.status

-- `computeStreak(userId)`
unfoldable pub compute_streak : Table DailyCheckin → ℕ → ℕ → ℕ → List DailyCheckin → Option ℕ
unfolding streak_at
compute_streak db fuel u today rows =
    streak_at fuel (map (λ r. r.checkin_date) (db.find_many (is_confirmed_of u) rows)) today
