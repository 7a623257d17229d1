-- ===== src/Ads.antt =====
-- Paid views (server/controllers/ptpController.js).
pub mod Views
pub mod Balance
