-- ===== src/Offers/State.antt =====
-- The rows and helpers of the offer events (server/prisma/schema.prisma,
-- server/services/offerEventHelpers.js). A time is a count of milliseconds.
use support_block_miner.Base.Table.{Table}
use support_block_miner.Base.{
  none, some, true, false, ◌&&◌, ◌||◌, ℕ, not, is_some, Bool, Option, String, List, or_else, leb,
  ltb,
}
use support_block_miner.Base.Int.{ℤ}
use support_block_miner.Database.{UserInventory}
use support_block_miner.Engine.State.{Engine}

-- The keys of `CURRENCY_TO_USER_FIELD`.
pub data Currency : Type 0 where
  pol_coin btc_coin eth_coin usdt_coin usdc_coin zer_coin : Currency

abbrev pub same_currency : Currency → Currency → Bool
same_currency pol_coin pol_coin = true
same_currency btc_coin btc_coin = true
same_currency eth_coin eth_coin = true
same_currency usdt_coin usdt_coin = true
same_currency usdc_coin usdc_coin = true
same_currency zer_coin zer_coin = true
same_currency _ _ = false

-- `normalizeOfferCurrency`, on a text that names one of the currencies, in whatever case, or none of them.
abbrev pub normalize_offer_currency : Option Currency → Currency
normalize_offer_currency none = pol_coin
normalize_offer_currency (some c) = c

-- `model OfferEvent`
pub record OfferEvent : Type 0 where
  pub id : ℕ
  pub starts_at : ℕ
  pub ends_at : ℕ
  pub is_active : Bool
  pub deleted_at : Option ℕ

-- `model EventMiner`
pub record EventMiner : Type 0 where
  pub id : ℕ
  pub event_id : ℕ
  pub name : String
  pub image_url : Option String
  pub price : ℤ
  pub hash_rate : ℤ
  pub currency : Option Currency
  pub stock_unlimited : Bool
  pub stock_count : Option ℕ
  pub sold_count : ℕ
  pub slot_size : ℕ
  pub is_active : Bool
  pub is_free : Bool
  pub claim_limit_per_user : ℕ

-- `model EventPurchase`
pub record EventPurchase : Type 0 where
  pub user_id : ℕ
  pub event_id : ℕ
  pub event_miner_id : ℕ
  pub price_paid : ℤ
  pub currency : Currency

-- The balances of a user: the column of each currency, as `userBalanceFieldForCurrency` names it.
pub record OfferUser : Type 0 where
  pub id : ℕ
  pub balance : Currency → ℤ

pub record OfferStore : Type 0 where
  pub users : List OfferUser
  pub events : List OfferEvent
  pub miners : List EventMiner
  pub purchases : List EventPurchase
  pub inventory : List UserInventory
  pub engine : Option (Engine ℤ)

pub record OfferDb : Type 0 where
  pub users : Table OfferUser
  pub events : Table OfferEvent
  pub miners : Table EventMiner
  pub purchases : Table EventPurchase
  pub inventory : Table UserInventory

-- `isOfferEventLiveAt`
abbrev pub is_offer_event_live_at : ℕ → OfferEvent → Bool
is_offer_event_live_at now e =
    not (is_some e.deleted_at) && e.is_active && leb e.starts_at now && leb now e.ends_at

-- `m.stockCount || 0`
abbrev pub stock_of : EventMiner → ℕ
stock_of m = or_else m.stock_count 0

-- `hasEventMinerStock`
abbrev pub has_event_miner_stock : EventMiner → Bool
has_event_miner_stock m =
    m.is_active && (m.stock_unlimited || (is_some m.stock_count && ltb m.sold_count (stock_of m)))
