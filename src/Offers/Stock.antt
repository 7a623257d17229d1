-- ===== src/Offers/Stock.antt =====
-- That no machine of an offer event is sold beyond its stock
-- (server/services/offerEventPurchaseService.js).
use support_block_miner.Base.Table.{
  HasUnique, IsTable, update-HasUnique, HasUnique-map, same-by-key, All-map-imp,
}
use support_block_miner.Offers.Purchase.{
  increment_sold_count, is_unsold, sell, deliver, purchase_event_miner, claim_free, buy_offer,
}
use support_block_miner.Base.{
  true, false, [], ◌∷◌, inl, inr, ◌+◌, ◌≤◌, ◌≡◌, ◌&&◌, if◌then◌else◌, arith, ℕ, not, List, ◌⊎◌, All,
  map, ◌∙◌, ap, ltb, Bool-cases, some, refl, zero, suc, ◌==◌, All-zip, Option-cases, is_some,
  length, Bool,
}
use support_block_miner.Offers.State.{
  EventMiner, stock_of, OfferDb, OfferStore, is_offer_event_live_at, has_event_miner_stock,
  normalize_offer_currency,
}
use support_block_miner.Engine.Numbers.{Numbers}
use support_block_miner.Base.Int.{ℤ, pos, leb_ℤ, ltb_ℤ, scale}
use support_block_miner.Base.Http.{Result-cases, Response}

-- No more machines sold than there are.
abbrev pub IsStocked : EventMiner → Type 0
IsStocked m = (m.stock_unlimited ≡ true) ⊎ (m.sold_count ≤ stock_of m)

-- What other transactions may do to a row: they keep its key and its stock, and keep it within its stock.
pub record AreFair (others : ℕ → EventMiner → EventMiner) : Type 0 where
  pub id : (i : ℕ) (m : EventMiner) → (others i m).id ≡ m.id
  pub stock_unlimited : (i : ℕ) (m : EventMiner) → (others i m).stock_unlimited ≡ m.stock_unlimited
  pub stock_count : (i : ℕ) (m : EventMiner) → (others i m).stock_count ≡ m.stock_count
  pub kept : (i : ℕ) (m : EventMiner) → IsStocked m → IsStocked (others i m)

-- The machines of the table: their keys are unique, and none is oversold.
pub record IsOffered (miners : List EventMiner) : Type 0 where
  pub ids : HasUnique (λ (m : EventMiner). m.id) miners
  pub stocked : All IsStocked miners

IsOffered-if :
    (b : Bool) (x y : Response (Unit {0}) × OfferStore)
    → IsOffered x.1.miners
    → IsOffered y.1.miners
    → IsOffered (if b then x else y).1.miners
IsOffered-if true x y h k = h
IsOffered-if false x y h k = k

module _ (n : Numbers ℤ) (db : OfferDb) (laws : IsTable db.miners)
    (others : ℕ → EventMiner → EventMiner) (fair : AreFair others) where
  others-IsOffered :
      (i : ℕ) (miners : List EventMiner) → IsOffered miners → IsOffered (map (others i) miners)
  others-IsOffered i miners h = record {
    ids = HasUnique-map (λ m. m.id) (others i) miners (fair.id i) h.ids;
    stocked = All-map-imp IsStocked IsStocked (others i) miners (fair.kept i) h.stocked;
  }

  -- The write of an attempt, after the others: the row has the count that was read.
  sell-IsStocked :
      (i miner_id quantity : ℕ) (m r : EventMiner)
      → m.id ≡ miner_id
      → (not m.stock_unlimited && ltb (stock_of m) (m.sold_count + quantity)) ≡ false
      → (r.id ≡ m.id → r ≡ m)
      → IsStocked r
      → IsStocked (
          if is_unsold n db others miner_id m.sold_count (others i r)
          then sell n db others quantity (others i r)
          else others i r)
  sell-IsStocked i miner_id quantity m r here enough same stocked =
      elim (Bool-cases (is_unsold n db others miner_id m.sold_count (others i r))) [
        | inr missed ↦ rw missed (fair.kept i r stocked)
        | inl hit ↦
            let key = fair.id i r in
            let row : r ≡ m = same (ground arith) in
            let stock : (others i r).stock_count ≡ m.stock_count =
              fair.stock_count i r ∙ ap (λ x. x.stock_count) row in
            let unlimited : (others i r).stock_unlimited ≡ m.stock_unlimited =
              fair.stock_unlimited i r ∙ ap (λ x. x.stock_unlimited) row in
            let count : (others i r).sold_count ≡ m.sold_count = ground arith in
            rw (hit, stock, unlimited, count)
              (elim (Bool-cases m.stock_unlimited) [
                | inl free ↦ inl free
                | inr bounded ↦ inr (ground arith)
              ])
      ]

  sell-rows :
      (i miner_id quantity : ℕ) (m : EventMiner) (rs : List EventMiner)
      → m.id ≡ miner_id
      → (not m.stock_unlimited && ltb (stock_of m) (m.sold_count + quantity)) ≡ false
      → All (λ r. (r.id ≡ m.id → r ≡ m) × IsStocked r) rs
      → All IsStocked (
          map
            (λ r.
              if is_unsold n db others miner_id m.sold_count r
              then sell n db others quantity r
              else r)
            (map (others i) rs))
  sell-rows i miner_id quantity m [] here enough h = tt
  sell-rows i miner_id quantity m (r ∷ rs) here enough h = (
    sell-IsStocked i miner_id quantity m r here enough h.0.0 h.0.1,
    sell-rows i miner_id quantity m rs here enough h.1,
  )

  sell-IsOffered :
      (i miner_id quantity : ℕ) (m : EventMiner) (miners : List EventMiner)
      → IsOffered miners
      → db.miners.find (λ r. r.id == miner_id) miners ≡ some m
      → (not m.stock_unlimited && ltb (stock_of m) (m.sold_count + quantity)) ≡ false
      → IsOffered (
          db.miners.update
            (is_unsold n db others miner_id m.sold_count)
            (sell n db others quantity)
            (map (others i) miners))
  sell-IsOffered i miner_id quantity m miners h found enough =
      let (hit, member) = laws.find_some _ miners m found in
      let here : m.id ≡ miner_id = ground arith in
      let rows =
        All-zip (λ r. r.id ≡ m.id → r ≡ m) IsStocked miners
          (same-by-key (λ r. r.id) m miners h.ids member) h.stocked in
      let before = others-IsOffered i miners h in
      record {
        ids =
            update-HasUnique db.miners laws (λ r. r.id)
              (is_unsold n db others miner_id m.sold_count) (sell n db others quantity)
              (map (others i) miners) (λ r. refl) before.ids;
        stocked = rw laws.update_rows (sell-rows i miner_id quantity m miners here enough rows);
      }

  -- The count keeps every machine within its stock, however many attempts it takes and whatever it
  -- answers, where the other transactions do.
  increment_sold_count-IsOffered :
      (attempts miner_id quantity : ℕ) (miners : List EventMiner)
      → IsOffered miners
      → IsOffered (increment_sold_count n db others attempts miner_id quantity miners).1
  unfolding increment_sold_count
  increment_sold_count-IsOffered zero miner_id quantity miners h = h
  increment_sold_count-IsOffered (suc attempts) miner_id quantity miners h =
      let after = others-IsOffered attempts miners h in
      let later =
        increment_sold_count-IsOffered attempts miner_id quantity (map (others attempts) miners)
          after in
      elim (Option-cases (db.miners.find (λ m. m.id == miner_id) miners)) [
        | inl gone ↦ rw (gone, increment_sold_count) h
        | inr (m, found) ↦
            elim (Bool-cases
              (not m.stock_unlimited && ltb (stock_of m) (m.sold_count + quantity))) [
                | inl short ↦ rw (found, short, increment_sold_count) h
                | inr enough ↦
                    elim (Option-cases (
                      db.miners.find (is_unsold n db others miner_id m.sold_count)
                        (map (others attempts) miners))) [
                          | inl raced ↦ rw (found, enough, raced, increment_sold_count) later
                          | inr (r, still) ↦
                              rw (found, enough, still, increment_sold_count)
                                (sell-IsOffered attempts miner_id quantity m miners h found enough)
                        ]
              ]
      ]

  deliver-IsOffered :
      (id now u : ℕ) (m : EventMiner) (price : ℤ) (quantity : ℕ) (s : OfferStore)
      → IsOffered s.miners
      → IsOffered (deliver n db others id now u m price quantity s).1.miners
  unfolding deliver
  deliver-IsOffered id now u m price quantity s h =
      let kept = increment_sold_count-IsOffered 10 m.id quantity s.miners h in
      elim (Result-cases (increment_sold_count n db others 10 m.id quantity s.miners).0) [
        | inl (x, done) ↦ rw (done, deliver) kept
        | inr (message, failed) ↦ rw (failed, deliver) kept
      ]

  claim_free-IsOffered :
      (id now u : ℕ) (m : EventMiner) (quantity : ℕ) (s : OfferStore)
      → IsOffered s.miners
      → IsOffered (claim_free n db others id now u m quantity s).1.miners
  unfolding claim_free
  claim_free-IsOffered id now u m quantity s h =
      let kept = deliver-IsOffered id now u m (pos 0) quantity s h in
      let claims =
        length
          (db.purchases.find_many (λ p. p.user_id == u && p.event_miner_id == m.id) s.purchases) in
      elim (Bool-cases
        (ltb 0 m.claim_limit_per_user && ltb m.claim_limit_per_user (claims + quantity))) [
          | inl many ↦ rw (many, claim_free) h
          | inr few ↦ rw (few, claim_free) kept
        ]

  buy_offer-IsOffered :
      (id now u : ℕ) (m : EventMiner) (quantity : ℕ) (s : OfferStore)
      → IsOffered s.miners
      → IsOffered (buy_offer n db others id now u m quantity s).1.miners
  unfolding buy_offer
  buy_offer-IsOffered id now u m quantity s h =
      let kept = deliver-IsOffered id now u m m.price quantity s h in
      elim (Bool-cases (leb_ℤ m.price (pos 0))) [
        | inl bad ↦ rw (bad, buy_offer) h
        | inr good ↦ elim (Option-cases (db.users.find (λ r. r.id == u) s.users)) [
          | inl nobody ↦ rw (good, nobody, buy_offer) h
          | inr (user, found) ↦
              elim (Bool-cases (
                ltb_ℤ (user.balance (normalize_offer_currency m.currency))
                  (scale m.price quantity))) [
                    | inl poor ↦ rw (good, found, poor, buy_offer) h
                    | inr rich ↦ rw (good, found, rich, buy_offer) kept
                  ]
        ]
      ]

  -- A purchase from an offer event keeps every machine within its stock, whatever it answers, where the
  -- transactions that run beside it do. No two machines share a key.
  pub purchase_event_miner-IsOffered :
      (id now u miner_id quantity : ℕ) (s : OfferStore)
      → IsOffered s.miners
      → IsOffered (purchase_event_miner n db others id now u miner_id quantity s).1.miners
  unfolding purchase_event_miner
  purchase_event_miner-IsOffered id now u miner_id quantity s h =
      elim (Option-cases (db.miners.find (λ m. m.id == miner_id) s.miners)) [
        | inl gone ↦ rw (gone, purchase_event_miner) h
        | inr (m, found) ↦ elim (Option-cases (db.events.find (λ e. e.id == m.event_id) s.events)) [
          | inl lost ↦ rw (found, lost, purchase_event_miner) h
          | inr (e, known) ↦ elim (Bool-cases (is_some e.deleted_at)) [
            | inl deleted ↦ rw (found, known, deleted, purchase_event_miner) h
            | inr there ↦ elim (Bool-cases (not (is_offer_event_live_at now e))) [
              | inl closed ↦ rw (found, known, closed, there, purchase_event_miner) h
              | inr live ↦ elim (Bool-cases (not (has_event_miner_stock m))) [
                | inl empty ↦ rw (found, known, live, there, empty, purchase_event_miner) h
                | inr left ↦
                    rw (found, known, live, there, left, purchase_event_miner)
                      (IsOffered-if m.is_free (claim_free n db others id now u m quantity s)
                        (buy_offer n db others id now u m quantity s)
                        (claim_free-IsOffered id now u m quantity s h)
                        (buy_offer-IsOffered id now u m quantity s h))
              ]
            ]
          ]
        ]
      ]
