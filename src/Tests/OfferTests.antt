-- ===== src/Tests/OfferTests.antt =====
-- A run of a purchase from an offer event, and its theorem at that input.
use support_block_miner.Tests.Stores.{counts}
use support_block_miner.Base.Table.{memory, memory-IsTable}
use support_block_miner.Base.{none, some, true, false, [], ◌∷◌, inr, refl, ◌≡◌, arith, ℕ, map}
use support_block_miner.Base.Int.{pos, scale}
use support_block_miner.Offers.State.{OfferDb, EventMiner, OfferStore, pol_coin}
use support_block_miner.Offers.Stock.{AreFair, IsOffered, purchase_event_miner-IsOffered}
use support_block_miner.Offers.Purchase.{
  purchase_event_miner, buy_offer, deliver, increment_sold_count,
}

abbrev offer_db : OfferDb
offer_db = record {
  users = memory;
  events = memory;
  miners = memory;
  purchases = memory;
  inventory = memory;
}

-- A machine of which two of three are sold.
abbrev rare : EventMiner
rare = record {
  id = 5;
  event_id = 1;
  name = "Rare";
  image_url = none;
  price = pos 100;
  hash_rate = pos 500;
  currency = some pol_coin;
  stock_unlimited = false;
  stock_count = some 3;
  sold_count = 2;
  slot_size = 2;
  is_active = true;
  is_free = false;
  claim_limit_per_user = 1;
}

abbrev store : OfferStore
store = record {
  users = record { id = 7; balance = λ c. pos 250 } ∷ [];
  events =
      record { id = 1; starts_at = 100; ends_at = 900; is_active = true; deleted_at = none } ∷ [];
  miners = rare ∷ [];
  purchases = [];
  inventory = [];
  engine = none;
}

-- No other transaction.
abbrev alone : ℕ → EventMiner → EventMiner
alone i m = m

alone-AreFair : AreFair alone
alone-AreFair = record {
  id = λ i m. refl;
  stock_unlimited = λ i m. refl;
  stock_count = λ i m. refl;
  kept = λ i m h. h;
}

store-IsOffered : IsOffered store.miners
store-IsOffered = record { ids = (tt, tt); stocked = (inr (omega arith), tt) }

last_one :
    map (λ m. m.sold_count) (purchase_event_miner counts offer_db alone 40 500 7 5 1 store).1.miners
    ≡ 3 ∷ []
unfolding purchase_event_miner buy_offer deliver increment_sold_count scale
last_one = refl

purchase_event_miner-IsOffered_example :
    IsOffered (purchase_event_miner counts offer_db alone 40 500 7 5 1 store).1.miners
purchase_event_miner-IsOffered_example =
    purchase_event_miner-IsOffered counts offer_db memory-IsTable alone alone-AreFair 40 500 7 5 1
      store store-IsOffered
