-- ===== src/Shop/Sales.antt =====
-- What a purchase in the shop costs and gives (`purchaseMiner`, server/controllers/shopController.js).
use support_block_miner.Database.{UserInventory}
use support_block_miner.Base.{
  none, some, true, [], ◌∷◌, inl, inr, refl, zero, suc, ◌+◌, ◌≤◌, ◌≡◌, ◌||◌, arith, ℕ, List, Option,
  length, ap, Bool-cases, ◌∙◌, ltb, length-append, Option-cases, ◌==◌,
}
use support_block_miner.Base.Int.{pos, ◌+ℤ◌, ◌≤ℤ◌, ℤ, scale, leb_ℤ, ltb_ℤ, not-ltb_ℤ→le}
use support_block_miner.Base.Http.{accepted, rejected, Response}
use support_block_miner.Engine.Numbers.{Numbers}
use support_block_miner.Rooms.State.{HouseDb, IsHouseDb, House}
use support_block_miner.Base.Table.{Table, IsTable}
use support_block_miner.Shop.Purchase.{
  CatalogMiner, create_items, purchase_miner, buy_miner, new_item, is_for_sale, checkout,
}
use support_block_miner.Accounts.{pol_of, IsSolvent, update-charge}
use support_block_miner.Rooms.Install.{slots_of}
use mathlib.Core.List.{Memᴰ}

module _ (n : Numbers ℤ) (db : HouseDb) (laws : IsHouseDb db) (catalog_db : Table CatalogMiner)
    (catalog_laws : IsTable catalog_db) where
  length-create_items :
      (count id now u : ℕ) (m : CatalogMiner) (items : List UserInventory)
      → length (create_items n db catalog_db count id now u m items) ≡ length items + count
  unfolding create_items
  length-create_items zero id now u m items = omega arith
  length-create_items (suc count) id now u m items =
      let rest =
        length-create_items count (id + 1) now u m
          (db.inventory.create (new_item n db catalog_db id now u m) items) in
      let one =
        ap length (laws.inventory.create_rows (new_item n db catalog_db id now u m) items)
        ∙ length-append items (new_item n db catalog_db id now u m ∷ []) in
      omega (arith, rest, one)

  -- What an accepted purchase has done.
  abbrev pub Sold : ℕ → List CatalogMiner → Option ℕ → Option ℕ → House → House → Type 0
  Sold max_bulk catalog miner_id quantity h h' =
      (m : CatalogMiner) × (q : ℕ) × Memᴰ m catalog
      × (miner_id ≡ some m.id)
      × (quantity ≡ some q)
      × (m.is_active ≡ true)
      × (m.show_in_shop ≡ true)
      × (1 ≤ q)
      × (q ≤ max_bulk)
      × (pos 1 ≤ℤ m.price)
      × (length h'.inventory ≡ length h.inventory + q)
      × (pol_of h'.users +ℤ scale m.price q ≡ pol_of h.users)

  abbrev pub Purchased :
      ℕ → List CatalogMiner → Option ℕ → Option ℕ → House → Response ℤ × House → Type 0
  Purchased max_bulk catalog miner_id quantity h (accepted balance, h') =
      Sold max_bulk catalog miner_id quantity h h'
  Purchased max_bulk catalog miner_id quantity h (rejected status message, h') = h' ≡ h

  checkout-Purchased :
      (max_bulk : ℕ) (catalog : List CatalogMiner) (id now u i q : ℕ) (m : CatalogMiner) (h : House)
      → IsSolvent h.users
      → Memᴰ m catalog
      → some i ≡ some m.id
      → m.is_active ≡ true
      → m.show_in_shop ≡ true
      → 1 ≤ q
      → q ≤ max_bulk
      → pos 1 ≤ℤ m.price
      → Purchased max_bulk catalog (some i) (some q) h (checkout n db catalog_db id now u m q h)
        × IsSolvent (checkout n db catalog_db id now u m q h).1.users
  unfolding checkout
  checkout-Purchased max_bulk catalog id now u i q m h solvent listed same active shown low high
        priced =
      elim (Option-cases (db.users.find (λ r. r.id == u) h.users)) [
        | inl nobody ↦ rw (nobody, checkout) (refl, solvent)
        | inr (user, found) ↦ elim (Bool-cases (ltb_ℤ user.pol_balance (scale m.price q))) [
          | inl poor ↦ rw (found, poor, checkout) (refl, solvent)
          | inr rich ↦
              let (less, still) =
                update-charge db.users laws.users u (scale m.price q) h.users solvent found
                  (not-ltb_ℤ→le user.pol_balance (scale m.price q) rich) in
              let more = length-create_items q id now u m h.inventory in
              rw (found, rich, checkout)
                ((m, q, listed, same, refl, active, shown, low, high, priced, more, less), still)
        ]
      ]

  -- A purchase is rejected and changes nothing, or it is accepted: then the miner stands in the catalog,
  -- is active and in the shop, the quantity is from 1 to the bound, so many items are added, and the sum of the balances falls
  -- by exactly the price, which is above 0, times the quantity. The users are solvent and stay so.
  pub purchase_miner-Purchased :
      (max_bulk : ℕ) (catalog : List CatalogMiner) (id now u : ℕ) (miner_id quantity : Option ℕ)
      (h : House)
      → IsSolvent h.users
      → Purchased max_bulk catalog miner_id quantity h
          (purchase_miner n db catalog_db max_bulk catalog id now u miner_id quantity h)
        × IsSolvent
            (purchase_miner n db catalog_db max_bulk catalog id now u miner_id quantity h).1.users
  unfolding purchase_miner buy_miner
  purchase_miner-Purchased max_bulk catalog id now u none quantity h solvent = (refl, solvent)
  purchase_miner-Purchased max_bulk catalog id now u (some i) none h solvent = (refl, solvent)
  purchase_miner-Purchased max_bulk catalog id now u (some i) (some q) h solvent =
      elim (Bool-cases (ltb q 1 || ltb max_bulk q)) [
        | inl bad ↦ rw bad (refl, solvent)
        | inr good ↦ elim (Option-cases (catalog_db.find (is_for_sale i) catalog)) [
          | inl gone ↦ rw (good, gone, buy_miner) (refl, solvent)
          | inr (m, listed) ↦
              elim (Bool-cases (leb_ℤ m.price (pos 0) || leb_ℤ m.base_hash_rate (pos 0))) [
                | inl broken ↦ rw (good, listed, broken, buy_miner) (refl, solvent)
                | inr priced ↦ elim (Bool-cases (ltb 2 (slots_of m.slot_size))) [
                  | inl wide ↦ rw (good, listed, priced, wide, buy_miner) (refl, solvent)
                  | inr fits ↦
                      let (hit, in_catalog) = catalog_laws.find_some _ _ _ listed in
                      let same : i ≡ m.id = ground arith in
                      rw (good, listed, priced, fits, buy_miner)
                        (checkout-Purchased max_bulk catalog id now u i q m h solvent in_catalog
                          (ap some same) (ground arith) (ground arith) (ground arith) (ground arith)
                          (ground arith))
                ]
              ]
        ]
      ]
