-- ===== src/Offers.antt =====
-- Offer events and the purchase of their machines (server/services/offerEventPurchaseService.js,
-- server/services/offerEventHelpers.js).
pub mod State
pub mod Purchase
pub mod Stock
