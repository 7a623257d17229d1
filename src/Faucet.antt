-- ===== src/Faucet.antt =====
-- The faucet (server/controllers/faucetController.js).
pub mod Claims
pub mod Stamps
pub mod Cooldown
pub mod Visits
