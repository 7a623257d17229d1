-- ===== src/Wallet.antt =====
-- Deposits and withdrawals (server/models/walletModel.js, server/controllers/walletController.js,
-- server/services/depositVerifier.js, server/cron/withdrawalsCron.js).
pub mod State
pub mod Withdrawals
pub mod Funds
pub mod Endings
pub mod Requests
pub mod Deposits
pub mod Submit
pub mod Claims
pub mod Credits
pub mod Once
pub mod Open
pub mod Vault
pub mod Refinement
pub mod Jobs
pub mod Runs
