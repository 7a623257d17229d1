-- ===== src/Tests/LinkTests.antt =====
-- Runs of the shortlink, and its theorems at those inputs.
use support_block_miner.Shortlinks.State.{Links, LinksDb, IsLinksDb}
use support_block_miner.Shortlinks.Steps.{
  start_shortlink, start_session, reset_daily_if_needed, save_session, complete_shortlink_step,
  check_step, complete_step, finish, reward_miner, run_completed, today_midnight_utc,
}
use support_block_miner.Shortlinks.Daily.{complete_shortlink_step-start}
use support_block_miner.Shortlinks.Skip.{start_shortlink-complete_shortlink_step, IsFinished}
use support_block_miner.Tests.Stores.{small_miner}
use support_block_miner.Base.Table.{memory, memory-IsTable}
use support_block_miner.Base.{
  none, some, true, false, [], ◌∷◌, refl, suc, ◌+◌, ◌≤◌, ◌*◌, ◌≡◌, arith, ℕ, String,
}
use support_block_miner.Base.Int.{pos, ℤ}
use support_block_miner.Base.Http.{accepted}

abbrev links_db : LinksDb
links_db = record { completions = memory; rewards = memory; catalog = memory; inventory = memory }

links_db-IsLinksDb : IsLinksDb links_db
links_db-IsLinksDb = record {
  completions = memory-IsTable;
  rewards = memory-IsTable;
  catalog = memory-IsTable;
  inventory = memory-IsTable;
}

abbrev stamp : ℕ → ℤ → ℕ → String
stamp u step now = "token"

-- A reward is configured, and nobody has used the shortlink yet.
abbrev links : Links
links = record {
  completions = [];
  rewards = record { is_internal = true; is_active = true; miner_id = some 2 } ∷ [];
  catalog = small_miner ∷ [];
  inventory = [];
  incident_log = 0;
}

abbrev day : ℕ
day = 86_400_000

begun : (start_shortlink links_db stamp day 7 links).0 ≡ accepted "token"
unfolding start_shortlink start_session reset_daily_if_needed
begun = refl

rewarded :
    reward_miner links_db stamp (start_shortlink links_db stamp day 7 links).1 ≡ some small_miner
unfolding start_shortlink start_session reset_daily_if_needed save_session reward_miner
rewarded = refl

start_shortlink-complete_shortlink_step_example :
    IsFinished links_db links_db-IsLinksDb stamp 7 small_miner
      (start_shortlink links_db stamp day 7 links).1
      (complete_shortlink_step links_db stamp 1
        (day + 8000)
        7
        (some (pos 3))
        (some "token")
        false
        (start_shortlink links_db stamp day 7 links).1)
start_shortlink-complete_shortlink_step_example =
    start_shortlink-complete_shortlink_step links_db links_db-IsLinksDb stamp 1 day (day + 8000) 7
      "token" small_miner links tt begun (omega arith) rewarded

-- The session of the links after the start.
abbrev in_session : Links
in_session = record links {
  completions =
      record {
        user_id = 7;
        current_step = pos 0;
        daily_runs = 0;
        session_token = some "token";
        step_started_at = some day;
        completed_at = none;
        reset_at = none;
      }
      ∷ [];
}

run_done :
    (complete_shortlink_step links_db stamp 1
      (day + 8000)
      7
      (some (pos 3))
      (some "token")
      false
      in_session).0
    ≡ accepted (run_completed "Small")
unfolding complete_shortlink_step check_step complete_step finish reset_daily_if_needed reward_miner
run_done = refl

next_day :
    (start_shortlink links_db stamp
      (2 * day)
      7
      (complete_shortlink_step links_db stamp 1
        (day + 8000)
        7
        (some (pos 3))
        (some "token")
        false
        in_session).1).0
    ≡ accepted "token"
unfolding complete_shortlink_step check_step complete_step finish reset_daily_if_needed reward_miner
    start_shortlink start_session
next_day = refl

complete_shortlink_step-start_example : suc (day + 8000) ≤ today_midnight_utc (2 * day)
complete_shortlink_step-start_example =
    complete_shortlink_step-start links_db links_db-IsLinksDb stamp 1 (day + 8000) (2 * day) 7
      (some (pos 3)) (some "token") false "Small" "token" in_session run_done next_day
