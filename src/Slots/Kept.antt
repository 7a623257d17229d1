-- ===== src/Slots/Kept.antt =====
-- Putting a machine in a slot keeps what the users own (`installInventoryItem`,
-- server/controllers/inventoryController.js).
use support_block_miner.Slots.Owned.{
  rigs, Rig, rig_installed, rig_stored, found-ArePresent, shelve_each-rigs, shelve_previous-rigs,
}
use support_block_miner.Base.{
  none, some, [], ◌∷◌, inl, inr, refl, suc, ◌==◌, ◌+◌, ◌≤◌, ◌-◌, ◌≡◌, ◌≢◌, ◌&&◌, ◌++◌, arith, ℕ,
  ◌%◌, not, List, All, String, Option, All-imp, length, Bool-cases, Option-cases, ltb, ap, ◌∙◌,
}
use support_block_miner.Rooms.State.{House, HouseDb, IsHouseDb}
use support_block_miner.Base.Table.{
  HasUnique, Table, create-HasUnique, sum_by-create, create-All, sum_by-delete_found,
}
use mathlib.Core.List.{Memᴰ}
use support_block_miner.Database.{UserInventory, UserMiner}
use support_block_miner.Shop.Purchase.{CatalogMiner}
use support_block_miner.Slots.Shelf.{
  shelve, shelve_default, shelved, miner_of, name_or_default, board_slots, image_or, is_in_slots,
}
use support_block_miner.Slots.Install.{
  shelve_each, shelve_previous, place_item, put_in_slot, install_inventory_item, install_in_slot,
  placed_miner, in_the_way,
}
use support_block_miner.Base.Int.{ℤ, int_laws, pos_part, neg_part}
use support_block_miner.Rooms.Install.{slots_of}

-- The keys of the inventory are unique and below the next key.
abbrev pub IsKeyed : ℕ → House → Type 0
IsKeyed k h =
    HasUnique (λ (i : UserInventory). i.id) h.inventory
    × All (λ (i : UserInventory). suc i.id ≤ k) h.inventory

Memᴰ-append : {A : Type 0} (u : A) (xs ys : List A) → Memᴰ u xs → Memᴰ u (xs ++ ys)
Memᴰ-append u [] ys m = elim m [ ]
Memᴰ-append u (x ∷ xs) ys (Memᴰ.head e) = Memᴰ.head e
Memᴰ-append u (x ∷ xs) ys (Memᴰ.tail m) = Memᴰ.tail (Memᴰ-append u xs ys m)

module _ (db : HouseDb) (laws : IsHouseDb db) (catalog_db : Table CatalogMiner) where
  -- The inventory after some machines were shelved: keyed further on, with the old items in it.
  abbrev Grown : ℕ → UserInventory → House → Type 0
  Grown k item h = IsKeyed k h × Memᴰ item h.inventory

  shelve-Grown :
      (name : String) (image : Option String) (k now u : ℕ) (m : UserMiner) (item : UserInventory)
      (h : House)
      → Grown k item h
      → Grown (k + 1) item (shelve db catalog_db name image k now u m h)
  unfolding shelve
  shelve-Grown name image k now u m item h ((ids, low), there) =
      let new = shelved db catalog_db name image k now u m in
      (
        (
          create-HasUnique db.inventory laws.inventory (λ i. i.id) new h.inventory ids
              (All-imp (λ i. suc i.id ≤ k) (λ i. i.id ≢ k) h.inventory (λ i p. omega (arith, p))
                low),
          create-All db.inventory laws.inventory (λ i. suc i.id ≤ k + 1) new h.inventory
              (All-imp (λ i. suc i.id ≤ k) (λ i. suc i.id ≤ k + 1) h.inventory
                (λ i p. omega (arith, p)) low)
              (omega arith),
        ),
        rw laws.inventory.create_rows (Memᴰ-append item h.inventory (new ∷ []) there),
      )

  shelve_each-Grown :
      (catalog : List CatalogMiner) (k j now u : ℕ) (ms : List UserMiner) (item : UserInventory)
      (h : House)
      → k + length ms ≡ j
      → Grown k item h
      → Grown j item (shelve_each db catalog_db catalog k now u ms h)
  unfolding shelve_each shelve_default
  shelve_each-Grown catalog k j now u [] item h e g =
      let same : k ≡ j = omega (arith, e) in rw (← same) g
  shelve_each-Grown catalog k j now u (m ∷ ms) item h e g =
      let c = miner_of db catalog_db catalog m in
      shelve_each-Grown catalog (k + 1) j now u ms item _ (omega (arith, e))
        (shelve-Grown (name_or_default db catalog_db c) (image_or m.image_url c) k now u m item h g)

  -- At most one more machine is shelved, so the keys stay below the key after.
  shelve_previous-Grown :
      (catalog : List CatalogMiner) (k now u slot : ℕ) (item : UserInventory) (h : House)
      → Grown k item h
      → Grown (k + 1) item (shelve_previous db catalog_db catalog k now u slot h)
  unfolding shelve_previous shelve_default
  shelve_previous-Grown catalog k now u slot item h g =
      let ((ids, low), there) = g in
      let wider : Grown (k + 1) item h = (
        (
          ids,
          All-imp (λ (i : UserInventory). suc i.id ≤ k) (λ i. suc i.id ≤ k + 1) h.inventory
              (λ i p. omega (arith, p)) low,
        ),
        there,
      ) in
      elim (Bool-cases (slot % 2 == 1)) [
        | inr even ↦ rw (even, shelve_previous) wider
        | inl odd ↦
            elim (Option-cases
              (db.miners.find (λ m. m.user_id == u && m.slot_index == slot - 1) h.miners)) [
                | inl empty ↦ rw (odd, empty, shelve_previous) wider
                | inr (m, before) ↦ elim (Bool-cases (m.slot_size == 2)) [
                  | inr small ↦ rw (odd, before, small, shelve_previous) wider
                  | inl large ↦
                      rw (odd, before, large, shelve_previous) (shelve-Grown _ _ k now u m item h g)
                ]
              ]
      ]

  place_item-rigs :
      (weigh : Rig → ℤ) (k key u slot : ℕ) (item : UserInventory) (h : House)
      → Grown k item h
      → item.user_id ≡ u
      → rigs weigh (place_item db catalog_db key u slot item h) ≡ rigs weigh h
  unfolding place_item
  place_item-rigs weigh k key u slot item h ((ids, low), there) mine =
      let new = placed_miner db catalog_db key u slot item in
      let more = sum_by-create db.miners laws.miners (λ m. weigh (rig_installed m)) new h.miners in
      let less =
        sum_by-delete_found db.inventory laws.inventory (λ i. i.id) item
          (λ i. i.id == item.id && i.user_id == u) (λ i. weigh (rig_stored i)) h.inventory
          (ground arith) (λ r p. ground arith) ids there in
      let same : weigh (rig_installed new) ≡ weigh (rig_stored item) = rw mine refl in
      omega (
        int_laws,
        ap pos_part more,
        ap neg_part more,
        ap pos_part less,
        ap neg_part less,
        ap pos_part same,
        ap neg_part same,
      )

  put_in_slot-rigs :
      (weigh : Rig → ℤ) (catalog : List CatalogMiner) (key k now u slot : ℕ) (item : UserInventory)
      (h : House)
      → HasUnique (λ (m : UserMiner). m.id) h.miners
      → Grown k item h
      → item.user_id ≡ u
      → rigs weigh (put_in_slot db catalog_db catalog key k now u slot item h) ≡ rigs weigh h
  unfolding put_in_slot
  put_in_slot-rigs weigh catalog key k now u slot item h ids g mine =
      let ms = in_the_way db catalog_db u slot (slots_of item.slot_size) h in
      let there =
        found-ArePresent db laws catalog_db weigh u
          (λ m. m.user_id == u && is_in_slots slot (slots_of item.slot_size) m.slot_index) h.miners
          (λ m p. ground arith) ids in
      let h1 = shelve_each db catalog_db catalog k now u ms h in
      let (kept, ids1) = shelve_each-rigs db laws catalog_db weigh catalog k now u ms h ids there in
      let g1 = shelve_each-Grown catalog k (k + length ms) now u ms item h refl g in
      let h2 = shelve_previous db catalog_db catalog (k + length ms) now u slot h1 in
      place_item-rigs weigh (k + length ms + 1) key u slot item h2
        (shelve_previous-Grown catalog (k + length ms) now u slot item h1 g1) mine
      ∙ shelve_previous-rigs db laws catalog_db weigh catalog (k + length ms) now u slot h1 ids1
      ∙ kept

  pub install_inventory_item-rigs :
      (weigh : Rig → ℤ) (catalog : List CatalogMiner) (key k now u : ℕ)
      (slot inventory_id : Option ℕ) (h : House)
      → HasUnique (λ (m : UserMiner). m.id) h.miners
      → IsKeyed k h
      → rigs weigh (install_inventory_item db catalog_db catalog key k now u slot inventory_id h).1
        ≡ rigs weigh h
  unfolding install_inventory_item install_in_slot
  install_inventory_item-rigs weigh catalog key k now u none inventory_id h ids keyed = refl
  install_inventory_item-rigs weigh catalog key k now u (some slot) none h ids keyed =
      elim (Bool-cases (ltb slot board_slots)) [
        | inl inside ↦ rw (inside, install_inventory_item) refl
        | inr outside ↦ rw (outside, install_inventory_item) refl
      ]
  install_inventory_item-rigs weigh catalog key k now u (some slot) (some i) h ids keyed =
      elim (Bool-cases (ltb slot board_slots)) [
        | inr outside ↦ rw (outside, install_inventory_item) refl
        | inl inside ↦
            elim (Option-cases (db.inventory.find (λ x. x.id == i && x.user_id == u) h.inventory)) [
              | inl gone ↦ rw (inside, gone, install_inventory_item, install_in_slot) refl
              | inr (item, there) ↦
                  let (hit, member) = laws.inventory.find_some _ _ _ there in
                  elim (Bool-cases (slots_of item.slot_size == 2 && not (slot % 2 == 0))) [
                    | inl uneven ↦
                        rw (inside, there, uneven, install_inventory_item, install_in_slot) refl
                    | inr fits ↦
                        rw (inside, there, fits, install_inventory_item, install_in_slot)
                          (put_in_slot-rigs weigh catalog key k now u slot item h ids
                            (keyed, member) (ground arith))
                  ]
            ]
      ]
