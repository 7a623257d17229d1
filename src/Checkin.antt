-- ===== src/Checkin.antt =====
-- The daily check-in (server/controllers/checkinController.js, server/services/checkinChain.js).
pub mod State
pub mod Chain
pub mod Claims
pub mod Streak
pub mod Days
pub mod Growth
pub mod Paid
