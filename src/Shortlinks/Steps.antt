-- ===== src/Shortlinks/Steps.antt =====
-- The handlers of server/controllers/shortlinkController.js. A time is a count of milliseconds since
-- 1970 in UTC. The token, a hash of the user, the step, a secret and the time, is an argument.
use support_block_miner.Shortlinks.State.{ShortlinkCompletion, Links, LinksDb}
use support_block_miner.Shop.Purchase.{CatalogMiner}
use support_block_miner.Database.{UserInventory}
use support_block_miner.Base.Http.{Response, accepted, rejected}
use support_block_miner.Base.Text.{same_text}
use support_block_miner.Base.{
  none, some, false, ◌==◌, ◌+◌, ◌*◌, ◌&&◌, ◌||◌, if◌then◌else◌, ℕ, ◌/◌, not, is_some, Option, Bool,
  String, ltb, leb, List,
}
use support_block_miner.Base.Int.{pos, negsuc, ◌+ℤ◌, ℤ}

abbrev pub total_steps : ℕ
total_steps = 3

abbrev pub max_daily_runs : ℕ
max_daily_runs = 1

-- `todayMidnightUTC()`
abbrev pub today_midnight_utc : ℕ → ℕ
today_midnight_utc now = now / 86_400_000 * 86_400_000

-- `a || b`
abbrev pub or_time : Option ℕ → Option ℕ → Option ℕ
or_time (some a) b = some a
or_time none b = b

abbrev pub is_before : Option ℕ → ℕ → Bool
is_before none t = false
is_before (some a) t = ltb a t

abbrev pub needs_reset : ℕ → ShortlinkCompletion → Bool
needs_reset now c =
    ltb 0 c.daily_runs && is_before (or_time c.completed_at c.reset_at) (today_midnight_utc now)

abbrev pub reset_day : ℕ → ShortlinkCompletion → ShortlinkCompletion
reset_day now c = record c { daily_runs = 0; reset_at = some now }

abbrev pub is_of : ℕ → ShortlinkCompletion → Bool
is_of u c = c.user_id == u

-- The session that a start leaves.
abbrev pub begin_session : String → ℕ → ShortlinkCompletion → ShortlinkCompletion
begin_session token now c = record c {
  current_step = pos 0;
  session_token = some token;
  step_started_at = some now;
}

abbrev pub new_completion : ℕ → ShortlinkCompletion
new_completion u = record {
  user_id = u;
  current_step = pos 0;
  daily_runs = 0;
  session_token = none;
  step_started_at = none;
  completed_at = none;
  reset_at = none;
}

-- What a completed step answers: the last one names the machine.
pub data StepAnswer : Type 0 where
  next_step : ℤ → String → StepAnswer
  run_completed : String → StepAnswer

abbrev pub is_last_step : ℤ → Bool
is_last_step (pos n) = n == total_steps
is_last_step (negsuc n) = false

abbrev pub too_fast : Option ℕ → ℕ → Bool
too_fast none now = ltb now 8000
too_fast (some started) now = ltb now (started + 8000)

abbrev pub reward_item : ℕ → ℕ → ℕ → CatalogMiner → UserInventory
reward_item id now u m = record {
  id = id;
  user_id = u;
  miner_id = some m.id;
  miner_name = m.name;
  level = 1;
  hash_rate = m.base_hash_rate;
  slot_size = m.slot_size;
  image_url = m.image_url;
  acquired_at = now;
  expires_at = none;
}

abbrev pub finish_run : ℕ → ShortlinkCompletion → ShortlinkCompletion
finish_run now c = record c {
  current_step = pos 0;
  daily_runs = c.daily_runs + 1;
  completed_at = some now;
  session_token = none;
  step_started_at = some now;
}

abbrev pub advance : ℤ → String → ℕ → ShortlinkCompletion → ShortlinkCompletion
advance step token now c = record c {
  current_step = step;
  session_token = some token;
  step_started_at = some now;
}

module _ (db : LinksDb) (token_of : ℕ → ℤ → ℕ → String) where
  -- `resetDailyIfNeeded(status)`
  unfoldable pub reset_daily_if_needed :
      ℕ → Option ShortlinkCompletion → Links → Option ShortlinkCompletion × Links
  reset_daily_if_needed now none l = (none, l)
  reset_daily_if_needed now (some c) l =
      if needs_reset now c
      then (
        some (reset_day now c),
        record l {
          completions = db.completions.update (is_of c.user_id) (reset_day now) l.completions;
        },
      )
      else (some c, l)

  -- `getShortlinkStatus(req, res)`: the answer is `currentStep` and `dailyRuns`.
  unfoldable pub get_shortlink_status :
      ℕ → ℕ → Links → Response (Option ShortlinkCompletion) × Links
  unfolding reset_daily_if_needed
  get_shortlink_status now u l = elim (db.completions.find (is_of u) l.completions) [
    | none ↦ (
      accepted (some (new_completion u)),
      record l { completions = db.completions.create (new_completion u) l.completions },
    )
    | some c ↦ let after = reset_daily_if_needed now (some c) l in (accepted after.0, after.1)
  ]

  abbrev pub has_reached_limit : Option ShortlinkCompletion → Bool
  has_reached_limit none = false
  has_reached_limit (some c) = leb max_daily_runs c.daily_runs

  -- `shortlinkCompletion.upsert` of `startShortlink`.
  unfoldable pub save_session : ℕ → ℕ → String → List ShortlinkCompletion → List ShortlinkCompletion
  save_session now u token cs = elim (db.completions.find (is_of u) cs) [
    | none ↦ db.completions.create (begin_session token now (new_completion u)) cs
    | some _ ↦ db.completions.update (is_of u) (begin_session token now) cs
  ]

  -- From the day's reset on.
  unfoldable pub start_session :
      ℕ → ℕ → Option ShortlinkCompletion × Links → Response String × Links
  unfolding save_session
  start_session now u (status, l) =
      if has_reached_limit status
      then (rejected 403 "Limite diário alcançado. Volte amanhã.", l)
      else (
        accepted (token_of u (pos 1) now),
        record l { completions = save_session now u (token_of u (pos 1) now) l.completions },
      )

  -- `startShortlink(req, res)`: the answer is the token of the session.
  unfoldable pub start_shortlink : ℕ → ℕ → Links → Response String × Links
  unfolding start_session reset_daily_if_needed
  start_shortlink now u l =
      start_session now u
        (reset_daily_if_needed now (db.completions.find (is_of u) l.completions) l)

  -- The machine of the reward.
  unfoldable pub reward_miner : Links → Option CatalogMiner
  reward_miner l = elim (db.rewards.find (λ r. r.is_internal && r.is_active) l.rewards) [
    | none ↦ none
    | some r ↦ elim r.miner_id [ none ↦ none | some m ↦ db.catalog.find (λ c. c.id == m) l.catalog ]
  ]

  -- The `$transaction` of the last step; it throws without a reward.
  unfoldable pub finish : ℕ → ℕ → ℕ → Links → Response StepAnswer × Links
  unfolding reward_miner
  finish id now u l = elim (reward_miner l) [
    | none ↦ (
      rejected 500 "Recompensa de shortlink não configurada no sistema. Contate o administrador.",
      l,
    )
    | some m ↦ (
      accepted (run_completed m.name),
      record l {
        completions = db.completions.update (is_of u) (finish_run now) l.completions;
        inventory = db.inventory.create (reward_item id now u m) l.inventory;
      },
    )
  ]

  -- The incidents are none: the last step or another one.
  unfoldable pub complete_step : ℕ → ℕ → ℕ → Option ℤ → Links → Response StepAnswer × Links
  unfolding finish
  complete_step id now u none l = (rejected 500 "Process failed", l)
  complete_step id now u (some step) l =
      if is_last_step step
      then finish id now u l
      else let next = step +ℤ pos 1 in
        (
          accepted (next_step step (token_of u next now)),
          record l {
            completions =
                db.completions.update (is_of u) (advance next (token_of u next now) now)
                  l.completions;
          },
        )

  -- From the day's reset on; `session` is the row as it was read.
  unfoldable pub check_step :
      ℕ
      → ℕ
      → ℕ
      → Option ℤ
      → Option String
      → Bool
      → ShortlinkCompletion
      → Option ShortlinkCompletion × Links
      → Response StepAnswer × Links
  unfolding complete_step
  check_step id now u step token scripted session (fresh, l) =
      if has_reached_limit fresh
      then (rejected 403 "Limite diário alcançado.", l)
      else if not (same_text session.session_token token)
          || scripted
          || too_fast session.step_started_at now
      then (rejected 403 "Detection", record l { incident_log = l.incident_log + 1 })
      else complete_step id now u step l

  -- `completeShortlinkStep(req, res)`; the step is none where `Number(step)` is no integer, the token none
  -- where it is no text.
  unfoldable pub complete_shortlink_step :
      ℕ → ℕ → ℕ → Option ℤ → Option String → Bool → Links → Response StepAnswer × Links
  unfolding check_step reset_daily_if_needed
  complete_shortlink_step id now u step token scripted l =
      elim (db.completions.find (is_of u) l.completions) [
        | none ↦ (rejected 400 "No session", l)
        | some c ↦
            if is_some c.session_token
            then check_step id now u step token scripted c (reset_daily_if_needed now (some c) l)
            else (rejected 400 "No session", l)
      ]
