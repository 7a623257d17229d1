-- ===== src/Watch/Heartbeat.antt =====
-- `processHeartbeat` (server/controllers/sessionController.js).
use support_block_miner.Watch.State.{Viewer, Watch, WatchDb}
use support_block_miner.Base.Http.{Response, accepted, rejected}
use support_block_miner.Base.{
  none, some, true, false, ◌==◌, ◌+◌, ◌||◌, if◌then◌else◌, ℕ, Bool, Option, ltb,
}

-- `type`; none of the others is allowed.
pub data WatchType : Type 0 where
  youtube auto_mining : WatchType

-- What the decoding of `security.fingerprint` gives: it throws, it gives an object without a number
-- `ts`, which passes, or the `ts`.
pub data Fingerprint : Type 0 where
  unreadable no_stamp : Fingerprint
  stamp : ℕ → Fingerprint

pub data Beat : Type 0 where
  counted throttled : Beat

abbrev pub is_stale : Fingerprint → ℕ → Bool
is_stale (stamp ts) now = ltb (now + 5000) ts || ltb (ts + 60_000) now
is_stale _ now = false

abbrev pub is_unreadable : Fingerprint → Bool
is_unreadable unreadable = true
is_unreadable _ = false

-- `diff < 8`
abbrev pub is_too_fast : Option ℕ → ℕ → Bool
is_too_fast none now = false
is_too_fast (some last) now = ltb now (last + 8000)

abbrev pub add_seconds : WatchType → ℕ → Viewer → Viewer
add_seconds youtube now v = record v {
  last_heartbeat_at = some now;
  yt_seconds_balance = v.yt_seconds_balance + 10;
}
add_seconds auto_mining now v = record v {
  last_heartbeat_at = some now;
  auto_mining_seconds_balance = v.auto_mining_seconds_balance + 10;
}

module _ (db : WatchDb) where
  -- From the user on; without one the handler throws.
  unfoldable pub count_beat : ℕ → WatchType → ℕ → Watch → Response Beat × Watch
  count_beat now kind u w = elim (db.viewers.find (λ v. v.id == u) w.viewers) [
    | none ↦ (rejected 500 "", w)
    | some v ↦ if is_too_fast v.last_heartbeat_at now then (accepted throttled, w) else (
      accepted counted,
      record w { viewers = db.viewers.update (λ v. v.id == u) (add_seconds kind now) w.viewers },
    )
  ]

  -- `processHeartbeat(req, res)`
  unfoldable pub process_heartbeat :
      ℕ → Option WatchType → Bool → Fingerprint → ℕ → Watch → Response Beat × Watch
  unfolding count_beat
  process_heartbeat now none is_bot print u w = (rejected 400 "Invalid type", w)
  process_heartbeat now (some kind) is_bot print u w =
      if is_bot
      then (rejected 403 "Automation detected. Access denied.", w)
      else if is_unreadable print
      then (rejected 400 "Security check failed", w)
      else if is_stale print now
      then (rejected 400 "Invalid session token", w)
      else count_beat now kind u w
