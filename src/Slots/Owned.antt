-- ===== src/Slots/Owned.antt =====
-- The machines that the users own, under the handlers that move them by slot
-- (server/controllers/inventoryController.js, server/controllers/machinesController.js).
use support_block_miner.Rooms.State.{House, HouseDb, IsHouseDb}
use support_block_miner.Base.{
  true, [], ◌∷◌, inl, inr, refl, ◌==◌, ◌+◌, ◌-◌, ◌≡◌, ◌≢◌, ◌&&◌, arith, ℕ, ◌%◌, not, Option, List,
  All, Bool, String, All-imp, Bool-cases, keep, Option-cases, All-zip, ◌∙◌, ap,
}
use support_block_miner.Base.Int.{◌+ℤ◌, ℤ, int_laws, pos_part, neg_part}
use support_block_miner.Database.{UserMiner, UserInventory}
use support_block_miner.Base.Table.{
  sum_by, HasUnique, Table, HasUnique-keep, sum_by-create, delete-HasUnique, sum_by-delete_row,
  Memᴰ-keep, keep-Memᴰ,
}
use support_block_miner.Shop.Purchase.{CatalogMiner}
use mathlib.Core.List.{Memᴰ}
use support_block_miner.Slots.Shelf.{
  shelve, shelve_default, miner_of, shelved, name_or_default, image_or,
}
use support_block_miner.Slots.Install.{shelve_each, shelve_previous}

-- What stays of a machine when it moves by slot.
pub record Rig : Type 0 where
  pub user_id : ℕ
  pub miner_id : Option ℕ
  pub level : ℕ
  pub hash_rate : ℤ

abbrev pub rig_installed : UserMiner → Rig
rig_installed m = record {
  user_id = m.user_id;
  miner_id = m.miner_id;
  level = m.level;
  hash_rate = m.hash_rate;
}

abbrev pub rig_stored : UserInventory → Rig
rig_stored i = record {
  user_id = i.user_id;
  miner_id = i.miner_id;
  level = i.level;
  hash_rate = i.hash_rate;
}

-- A weight of the machines, summed over the installed and the stored ones.
abbrev pub rigs : (Rig → ℤ) → House → ℤ
rigs weigh h =
    sum_by (λ m. weigh (rig_installed m)) h.miners +ℤ sum_by (λ i. weigh (rig_stored i)) h.inventory

-- Distinct machines of a user that are in the table.
abbrev pub ArePresent : ℕ → List UserMiner → List UserMiner → Type 0
ArePresent u ms miners =
    HasUnique (λ (m : UserMiner). m.id) ms × All (λ m. (m.user_id ≡ u) × Memᴰ m miners) ms

module _ (db : HouseDb) (laws : IsHouseDb db) (catalog_db : Table CatalogMiner)
    (weigh : Rig → ℤ) where
  pub shelve-rigs :
      (name : String) (image : Option String) (id now u : ℕ) (m : UserMiner) (h : House)
      → HasUnique (λ (m : UserMiner). m.id) h.miners
      → Memᴰ m h.miners
      → m.user_id ≡ u
      → rigs weigh (shelve db catalog_db name image id now u m h) ≡ rigs weigh h
  unfolding shelve
  shelve-rigs name image id now u m h ids there mine =
      let more =
        sum_by-create db.inventory laws.inventory (λ i. weigh (rig_stored i))
          (shelved db catalog_db name image id now u m) h.inventory in
      let less =
        sum_by-delete_row db.miners laws.miners (λ i. i.id) (λ i. weigh (rig_installed i)) m
          h.miners ids there in
      let same : weigh (rig_stored (shelved db catalog_db name image id now u m))
          ≡ weigh (rig_installed m) =
        rw mine refl in
      omega (
        int_laws,
        ap pos_part more,
        ap neg_part more,
        ap pos_part less,
        ap neg_part less,
        ap pos_part same,
        ap neg_part same,
      )

  -- The others stay where they are.
  pub shelve-ArePresent :
      (name : String) (image : Option String) (id now u : ℕ) (m : UserMiner) (ms : List UserMiner)
      (h : House)
      → ArePresent u (m ∷ ms) h.miners
      → ArePresent u ms (shelve db catalog_db name image id now u m h).miners
  unfolding shelve
  shelve-ArePresent name image id now u m ms h (ids, there) = (
    ids.1,
    rw laws.miners.delete_rows (
        All-imp (λ x. (x.id ≢ m.id) × ((x.user_id ≡ u) × Memᴰ x h.miners))
          (λ x. (x.user_id ≡ u) × Memᴰ x (keep (λ y. not (y.id == m.id)) h.miners)) ms
          (λ x q. (q.1.0, Memᴰ-keep (λ y. not (y.id == m.id)) x h.miners (ground arith) q.1.1))
          (All-zip (λ x. x.id ≢ m.id) (λ x. (x.user_id ≡ u) × Memᴰ x h.miners) ms ids.0 there.1)),
  )

  pub shelve-ids :
      (name : String) (image : Option String) (id now u : ℕ) (m : UserMiner) (h : House)
      → HasUnique (λ (m : UserMiner). m.id) h.miners
      → HasUnique (λ (m : UserMiner). m.id) (shelve db catalog_db name image id now u m h).miners
  unfolding shelve
  shelve-ids name image id now u m h ids =
      delete-HasUnique db.miners laws.miners (λ m. m.id) (λ x. x.id == m.id) h.miners ids

  pub shelve_each-rigs :
      (catalog : List CatalogMiner) (id now u : ℕ) (ms : List UserMiner) (h : House)
      → HasUnique (λ (m : UserMiner). m.id) h.miners
      → ArePresent u ms h.miners
      → (rigs weigh (shelve_each db catalog_db catalog id now u ms h) ≡ rigs weigh h)
        × HasUnique
            (λ (m : UserMiner). m.id)
            (shelve_each db catalog_db catalog id now u ms h).miners
  unfolding shelve_each shelve_default
  shelve_each-rigs catalog id now u [] h ids there = (refl, ids)
  shelve_each-rigs catalog id now u (m ∷ ms) h ids there =
      let c = miner_of db catalog_db catalog m in
      let name = name_or_default db catalog_db c in
      let image = image_or m.image_url c in
      let step = shelve-rigs name image id now u m h ids there.1.0.1 there.1.0.0 in
      let (rest, unique) =
        shelve_each-rigs catalog (id + 1) now u ms (shelve db catalog_db name image id now u m h)
          (shelve-ids name image id now u m h ids)
          (shelve-ArePresent name image id now u m ms h there) in
      (rest ∙ step, unique)

  pub found-ArePresent :
      (u : ℕ) (p : UserMiner → Bool) (miners : List UserMiner)
      → ((m : UserMiner) → p m ≡ true → m.user_id ≡ u)
      → HasUnique (λ (m : UserMiner). m.id) miners
      → ArePresent u (db.miners.find_many p miners) miners
  found-ArePresent u p miners own ids = rw laws.miners.find_many_rows (
    HasUnique-keep (λ m. m.id) p miners ids,
    All-imp (λ m. (p m ≡ true) × Memᴰ m miners) (λ m. (m.user_id ≡ u) × Memᴰ m miners)
        (keep p miners) (λ m q. (own m q.0, q.1)) (keep-Memᴰ p miners),
  )

  pub shelve_previous-rigs :
      (catalog : List CatalogMiner) (id now u slot : ℕ) (h : House)
      → HasUnique (λ (m : UserMiner). m.id) h.miners
      → rigs weigh (shelve_previous db catalog_db catalog id now u slot h) ≡ rigs weigh h
  unfolding shelve_previous shelve_default
  shelve_previous-rigs catalog id now u slot h ids = elim (Bool-cases (slot % 2 == 1)) [
    | inr even ↦ rw (even, shelve_previous) refl
    | inl odd ↦
        elim (Option-cases
          (db.miners.find (λ m. m.user_id == u && m.slot_index == slot - 1) h.miners)) [
            | inl empty ↦ rw (odd, empty, shelve_previous) refl
            | inr (m, there) ↦
                let (hit, member) = laws.miners.find_some _ _ _ there in
                elim (Bool-cases (m.slot_size == 2)) [
                  | inr small ↦ rw (odd, there, small, shelve_previous) refl
                  | inl large ↦
                      rw (odd, there, large, shelve_previous)
                        (shelve-rigs _ _ id now u m h ids member (ground arith))
                ]
          ]
  ]
