-- ===== src/Watch/Runs.antt =====
-- Watching over the life of the server: heartbeats, GPUs and videos, in any order
-- (server/controllers/sessionController.js, server/controllers/autoMiningGpuController.js,
-- server/controllers/youtubeController.js).
use support_block_miner.Watch.State.{Watch, WatchDb, IsWatchDb}
use support_block_miner.Watch.Heartbeat.{WatchType, Fingerprint, process_heartbeat}
use support_block_miner.Watch.Gpus.{get_available_gpus, claim_gpu_handler}
use support_block_miner.Watch.Videos.{claim_video_reward}
use support_block_miner.Watch.Budget.{IsTimed}
use support_block_miner.Watch.Seconds.{process_heartbeat-IsTimed, claim_video_reward-IsTimed}
use support_block_miner.Watch.Release.{claim_gpu_handler-IsTimed, get_available_gpus-IsTimed}
use support_block_miner.Base.{◌≤◌, ◌≢◌, ℕ, Option, Bool, All, String}

module _ (db : WatchDb) (since : ℕ) where
  -- One request, at a time from `since` on. The key of a new GPU is that of no other.
  pub data WatchStep : Watch → Watch → Type 0 where
    beats :
        (now u : ℕ) (kind : Option WatchType) (is_bot : Bool) (print : Fingerprint) (w : Watch)
        → since ≤ now
        → WatchStep w (process_heartbeat db now kind is_bot print u w).1
    releases :
        (id now u : ℕ) (w : Watch)
        → All (λ g. g.id ≢ id) w.gpus
        → WatchStep w (get_available_gpus db id now u w).1
    claims_gpu :
        (id now u : ℕ) (gpu_id : Option ℕ) (w : Watch)
        → WatchStep w (claim_gpu_handler db id now gpu_id u w).1
    claims_video :
        (now duration u : ℕ) (video : Option String) (w : Watch)
        → WatchStep w (claim_video_reward db now duration video u w).1

  pub data WatchRun : Watch → Watch → Type 0 where
    no_request : (w : Watch) → WatchRun w w
    one_more : (w w' w'' : Watch) → WatchRun w w' → WatchStep w' w'' → WatchRun w w''

  module _ (laws : IsWatchDb db) where
    step-IsTimed : (w w' : Watch) → WatchStep w w' → IsTimed since w → IsTimed since w'
    step-IsTimed _ _ (beats now u kind is_bot print w later) h =
        process_heartbeat-IsTimed db laws since now u kind is_bot print w later h
    step-IsTimed _ _ (releases id now u w new) h =
        get_available_gpus-IsTimed db laws since id now u w new h
    step-IsTimed _ _ (claims_gpu id now u gpu_id w) h =
        claim_gpu_handler-IsTimed db laws since id now u gpu_id w h
    step-IsTimed _ _ (claims_video now duration u video w) h =
        claim_video_reward-IsTimed db laws since now duration u video w h

    -- After any sequence of heartbeats and claims no user has had more than the time allows: the seconds of
    -- the balances, the 300 of each claimed GPU and the 60 of each watched video are together at most 10
    -- for every 8 seconds from `since` to the last heartbeat, and 10 more. The requests come from `since` on,
    -- and the tables start with unique keys and within that bound.
    pub run-IsTimed : (w w' : Watch) → WatchRun w w' → IsTimed since w → IsTimed since w'
    run-IsTimed _ _ (no_request w) h = h
    run-IsTimed _ _ (one_more w w' w'' before step) h =
        step-IsTimed w' w'' step (run-IsTimed w w' before h)
