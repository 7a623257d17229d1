-- ===== src/Slots.antt =====
-- Machines by slot, outside the rooms (server/controllers/inventoryController.js,
-- server/controllers/machinesController.js, server/models/machineModel.js).
pub mod Shelf
pub mod Install
pub mod Move
pub mod Owned
pub mod Kept
pub mod Moved
pub mod Calls
