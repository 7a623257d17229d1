-- ===== src/Engine.antt =====
-- The mining engine kept in memory (server/src/miningEngine.js) and the hook by which other parts
-- change a miner's balance in it (server/src/runtime/miningRuntime.js).
pub mod Numbers
pub mod State
pub mod Miners
pub mod Blocks
pub mod Rewards
pub mod Persist
pub mod Snapshots
pub mod Rollback
pub mod Registry
pub mod Owners
pub mod Reach
