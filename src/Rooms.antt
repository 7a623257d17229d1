-- ===== src/Rooms.antt =====
-- Rooms, racks and the machines in them (server/controllers/roomsController.js).
pub mod State
pub mod Install
pub mod Buy
pub mod Machines
pub mod Purchases
