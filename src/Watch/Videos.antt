-- ===== src/Watch/Videos.antt =====
-- `claimReward` (server/controllers/youtubeController.js) and the cleanup of
-- server/cron/gamePowerCleanup.js.
use support_block_miner.Watch.State.{Viewer, Watch, WatchDb, YoutubeWatch}
use support_block_miner.Watch.Gpus.{day_of_ms}
use support_block_miner.Base.Http.{Response, accepted, rejected}
use support_block_miner.Base.{
  none, some, false, [], ◌∷◌, ◌==◌, ◌+◌, ◌-◌, ◌&&◌, if◌then◌else◌, ℕ, Bool, List, String, Option,
  ltb,
}

abbrev pub reward_per_claim : ℕ
reward_per_claim = 3

abbrev pub daily_limit_hash : ℕ
daily_limit_hash = 1440

-- The rows of a user from the last day; `createdAt` is the time of the claim.
abbrev pub is_recent_watch : ℕ → ℕ → YoutubeWatch → Bool
is_recent_watch now u y = y.user_id == u && ltb now (y.claimed_at + day_of_ms)

-- `claims24h.reduce(…)`
abbrev pub total_hash : List YoutubeWatch → ℕ
total_hash [] = 0
total_hash (y ∷ ys) = y.hash_rate + total_hash ys

abbrev pub new_watch : ℕ → ℕ → ℕ → String → YoutubeWatch
new_watch now duration u video = record {
  user_id = u;
  source_video_id = video;
  hash_rate = reward_per_claim;
  claimed_at = now;
  expires_at = now + duration;
}

abbrev pub take_video_seconds : Viewer → Viewer
take_video_seconds v = record v { yt_seconds_balance = v.yt_seconds_balance - 60 }

module _ (db : WatchDb) where
  -- The `$transaction` of the claim.
  unfoldable pub grant_power : ℕ → ℕ → ℕ → String → Watch → Watch
  grant_power now duration u video w = record w {
    powers = db.powers.create (new_watch now duration u video) w.powers;
    history = db.history.create (new_watch now duration u video) w.history;
    viewers = db.viewers.update (λ v. v.id == u) take_video_seconds w.viewers;
  }

  -- `claimReward(req, res)`; the duration is `YOUTUBE_REWARD_DURATION_HOURS` in milliseconds, a missing
  -- video none.
  unfoldable pub claim_video_reward :
      ℕ → ℕ → Option String → ℕ → Watch → Response (Unit {0}) × Watch
  unfolding grant_power
  claim_video_reward now duration none u w = (rejected 400 "Missing videoId", w)
  claim_video_reward now duration (some video) u w =
      elim (db.viewers.find (λ v. v.id == u) w.viewers) [
        | none ↦ (rejected 400 "Tempo de visualização insuficiente verificado pelo servidor.", w)
        | some v ↦
            if ltb v.yt_seconds_balance 60
            then (rejected 400 "Tempo de visualização insuficiente verificado pelo servidor.", w)
            else if ltb daily_limit_hash (
                total_hash (db.history.find_many (is_recent_watch now u) w.history)
                + reward_per_claim)
            then (rejected 400 "Daily reward limit reached. Try again later!", w)
            else (accepted tt, grant_power now duration u video w)
      ]

  abbrev pub has_expired : ℕ → Option ℕ → Bool
  has_expired now none = false
  has_expired now (some t) = ltb t now

  -- One turn of `startGamePowerCleanup`, on the tables of this part.
  unfoldable pub clean_up : ℕ → Watch → Watch
  clean_up now w = record w {
    inventory = db.inventory.delete (λ i. has_expired now i.expires_at) w.inventory;
    powers = db.powers.delete (λ y. ltb y.expires_at now) w.powers;
  }
