-- ===== src/Shop.antt =====
-- The shop (server/controllers/shopController.js, server/models/minersModel.js).
pub mod Purchase
pub mod Sales
