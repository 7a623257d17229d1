-- ===== src/Offers/Purchase.antt =====
-- `incrementSoldCountOptimistic` and `purchaseEventMinerForUser`
-- (server/services/offerEventPurchaseService.js). The keys of new rows and the time are arguments; the
-- notification and the answered balances are left out. An event's miner that is free costs nothing.
use text.Mathlib.Text.{◌==◌ as str_eq}
use support_block_miner.Offers.State.{
  EventMiner, OfferDb, EventPurchase, Currency, OfferStore, OfferUser, same_currency,
  normalize_offer_currency, is_offer_event_live_at, has_event_miner_stock, stock_of, pol_coin,
}
use support_block_miner.Base.{
  none, some, zero, suc, ◌==◌, ◌+◌, ◌&&◌, if◌then◌else◌, ℕ, not, is_some, Bool, List, map, length,
  ltb, String,
}
use support_block_miner.Base.Int.{pos, ◌+ℤ◌, ℤ, leb_ℤ, neg, scale, ltb_ℤ}
use support_block_miner.Base.Http.{accepted, rejected, ok, throw, Result, Response}
use support_block_miner.Engine.Numbers.{Numbers}
use support_block_miner.Database.{UserInventory}
use support_block_miner.Shop.Purchase.{image_or_default}
use support_block_miner.Engine.Miners.{apply_user_balance_delta}

-- The answer to an error of the count, by its message.
abbrev pub answer_stock_error : String → Response (Unit {0})
answer_stock_error message =
    if str_eq message "MINER_NOT_FOUND"
    then rejected 404 "Miner or event not found."
    else if str_eq message "OUT_OF_STOCK"
    then rejected 400 "This offer is sold out or unavailable."
    else rejected 409 "Please try again."

module _ (n : Numbers ℤ) (db : OfferDb) (others : ℕ → EventMiner → EventMiner) where
  abbrev pub sell : ℕ → EventMiner → EventMiner
  sell quantity m = record m { sold_count = m.sold_count + quantity }

  abbrev pub is_unsold : ℕ → ℕ → EventMiner → Bool
  is_unsold miner_id sold m = m.id == miner_id && m.sold_count == sold

  -- `incrementSoldCountOptimistic(tx, minerId, quantity)` with so many attempts left: `others i` is what
  -- other transactions do to a row between the read and the write of an attempt.
  unfoldable pub increment_sold_count :
      ℕ → ℕ → ℕ → List EventMiner → Result (Unit {0}) × List EventMiner
  increment_sold_count zero miner_id quantity miners = (throw "STOCK_BUSY", miners)
  increment_sold_count (suc attempts) miner_id quantity miners =
      elim (db.miners.find (λ m. m.id == miner_id) miners) [
        | none ↦ (throw "MINER_NOT_FOUND", miners)
        | some m ↦
            let now_there = map (others attempts) miners in
            let again = increment_sold_count attempts miner_id quantity now_there in
            if not m.stock_unlimited && ltb (stock_of m) (m.sold_count + quantity)
            then (throw "OUT_OF_STOCK", miners)
            else elim (db.miners.find (is_unsold miner_id m.sold_count) now_there) [
              | some _ ↦ (
                ok tt,
                db.miners.update (is_unsold miner_id m.sold_count) (sell quantity) now_there,
              )
              | none ↦ again
            ]
      ]

  abbrev pub event_item : ℕ → ℕ → ℕ → EventMiner → UserInventory
  event_item id now u m = record {
    id = id;
    user_id = u;
    miner_id = none;
    miner_name = m.name;
    level = 1;
    hash_rate = m.hash_rate;
    slot_size = if m.slot_size == 2 then 2 else 1;
    image_url = image_or_default m.image_url;
    acquired_at = now;
    expires_at = none;
  }

  -- `createMany` of the items; the first has the key `id`.
  unfoldable pub create_event_items :
      ℕ → ℕ → ℕ → ℕ → EventMiner → List UserInventory → List UserInventory
  create_event_items zero id now u m items = items
  create_event_items (suc count) id now u m items =
      create_event_items count (id + 1) now u m (db.inventory.create (event_item id now u m) items)

  -- `createMany` of the purchases.
  unfoldable pub create_purchases : ℕ → EventPurchase → List EventPurchase → List EventPurchase
  create_purchases zero p purchases = purchases
  create_purchases (suc count) p purchases =
      create_purchases count p (db.purchases.create p purchases)

  abbrev pub debit : Currency → ℤ → OfferUser → OfferUser
  debit c total r = record r {
    balance = λ d. if same_currency c d then r.balance d +ℤ neg total else r.balance d;
  }

  -- From the count of the sold machines on, for a price that is 0 where the machine is free.
  unfoldable pub deliver :
      ℕ → ℕ → ℕ → EventMiner → ℤ → ℕ → OfferStore → Response (Unit {0}) × OfferStore
  unfolding increment_sold_count create_event_items create_purchases
  deliver id now u m price quantity s =
      let currency = normalize_offer_currency m.currency in
      let total = scale price quantity in
      let (sold, miners) = increment_sold_count 10 m.id quantity s.miners in
      elim sold [
        | throw message ↦ (answer_stock_error message, record s { miners = miners })
        | ok _ ↦ (
          accepted tt,
          record {
            users =
                if m.is_free
                then s.users
                else db.users.update (λ r. r.id == u) (debit currency total) s.users;
            events = s.events;
            miners = miners;
            purchases =
                create_purchases quantity
                  (record {
                    user_id = u;
                    event_id = m.event_id;
                    event_miner_id = m.id;
                    price_paid = price;
                    currency = currency;
                  })
                  s.purchases;
            inventory = create_event_items quantity id now u m s.inventory;
            engine =
                if not m.is_free && same_currency currency pol_coin
                then apply_user_balance_delta n u (neg total) s.engine
                else s.engine;
          },
        )
      ]

  -- A free machine, within the limit of claims of the user.
  unfoldable pub claim_free :
      ℕ → ℕ → ℕ → EventMiner → ℕ → OfferStore → Response (Unit {0}) × OfferStore
  unfolding deliver
  claim_free id now u m quantity s =
      let claims =
        length
          (db.purchases.find_many (λ p. p.user_id == u && p.event_miner_id == m.id) s.purchases) in
      if ltb 0 m.claim_limit_per_user && ltb m.claim_limit_per_user (claims + quantity)
      then (rejected 400 "Limite de coletas atingido para esta maquina.", s)
      else deliver id now u m (pos 0) quantity s

  -- A machine with a price.
  unfoldable pub buy_offer :
      ℕ → ℕ → ℕ → EventMiner → ℕ → OfferStore → Response (Unit {0}) × OfferStore
  unfolding deliver
  buy_offer id now u m quantity s =
      if leb_ℤ m.price (pos 0)
      then (rejected 500 "Purchase failed.", s)
      else elim (db.users.find (λ r. r.id == u) s.users) [
        | none ↦ (rejected 404 "Miner or event not found.", s)
        | some user ↦
            if ltb_ℤ (user.balance (normalize_offer_currency m.currency)) (scale m.price quantity)
            then (rejected 400 "Insufficient balance.", s)
            else deliver id now u m m.price quantity s
      ]

  -- `purchaseEventMinerForUser(userId, eventMinerId, quantity)`
  unfoldable pub purchase_event_miner :
      ℕ → ℕ → ℕ → ℕ → ℕ → OfferStore → Response (Unit {0}) × OfferStore
  unfolding claim_free buy_offer
  purchase_event_miner id now u miner_id quantity s =
      elim (db.miners.find (λ m. m.id == miner_id) s.miners) [
        | none ↦ (rejected 404 "Miner or event not found.", s)
        | some m ↦ elim (db.events.find (λ e. e.id == m.event_id) s.events) [
          | none ↦ (rejected 404 "Miner or event not found.", s)
          | some e ↦
              if is_some e.deleted_at
              then (rejected 404 "Miner or event not found.", s)
              else if not (is_offer_event_live_at now e)
              then (rejected 400 "This event is not active.", s)
              else if not (has_event_miner_stock m)
              then (rejected 400 "This offer is sold out or unavailable.", s)
              else if m.is_free
              then claim_free id now u m quantity s
              else buy_offer id now u m quantity s
        ]
      ]
