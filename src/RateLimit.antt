-- ===== src/RateLimit.antt =====
-- The rate limiter (server/middleware/rateLimit.js).
pub mod Hits
pub mod Windows
