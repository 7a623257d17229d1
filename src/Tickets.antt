-- ===== src/Tickets.antt =====
-- Tickets for deposits (server/controllers/depositTicketController.js).
pub mod State
pub mod Open
pub mod Resolve
pub mod Limit
pub mod Credit
pub mod Runs
