-- ===== src/Sessions.antt =====
-- Tokens and cookies (server/utils/authTokens.js, server/utils/token.js, server/middleware/csrf.js),
-- the nonces of payouts (server/utils/nonceManager.js) and passwords (server/routes/auth.js).
pub mod Split
pub mod Refresh
pub mod Cookies
pub mod Csrf
pub mod Nonces
pub mod Passwords
pub mod Takeover
