-- ===== src/Watch.antt =====
-- Rewards for watching: the heartbeats (server/controllers/sessionController.js), the GPUs
-- (server/controllers/autoMiningGpuController.js), the videos (server/controllers/youtubeController.js) and
-- the removal of what has expired (server/cron/gamePowerCleanup.js).
pub mod State
pub mod Heartbeat
pub mod Gpus
pub mod Videos
pub mod Budget
pub mod Seconds
pub mod Release
pub mod Runs
