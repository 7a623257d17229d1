-- ===== src/Shortlinks.antt =====
-- The internal shortlink (server/controllers/shortlinkController.js).
pub mod State
pub mod Steps
pub mod Daily
pub mod Skip
