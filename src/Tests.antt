-- ===== src/Tests.antt =====
-- Runs of the parts at concrete inputs.
mod EngineTests
mod Stores
mod WalletTests
mod RoomsTests
mod MarketTests
mod FaucetTests
mod LimiterTests
mod OfferTests
mod SlotsTests
mod DeskTests
mod CheckinTests
mod LinkTests
mod WatchTests
mod SessionTests
