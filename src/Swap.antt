-- ===== src/Swap.antt =====
-- Swaps between POL and USDC (server/controllers/swapController.js).
pub mod Exchange
pub mod Effects
