-- ===== src/Slots/Moved.antt =====
-- Moving, removing and switching a machine keeps what the users own
-- (server/controllers/machinesController.js).
use support_block_miner.Rooms.State.{House, HouseDb, IsHouseDb}
use support_block_miner.Database.{UserMiner}
use support_block_miner.Base.Table.{Table, IsTable, HasUnique, sum_by, update-HasUnique}
use support_block_miner.Shop.Purchase.{CatalogMiner}
use support_block_miner.Slots.Owned.{
  rigs, Rig, rig_installed, ArePresent, shelve-rigs, shelve-ids, shelve-ArePresent,
  found-ArePresent,
}
use support_block_miner.Slots.Shelf.{shelve, miner_of, image_or, is_in_slots, board_slots}
use support_block_miner.Slots.Install.{remove_machine, toggle_machine}
use support_block_miner.Slots.Move.{
  shelve_named, shelve_all_named, shelve_previous_named, change_slot, move_to_slot, move_machine,
}
use support_block_miner.Base.{
  none, some, [], ◌∷◌, inl, inr, refl, ◌==◌, ◌+◌, ◌-◌, ◌≡◌, ◌&&◌, if◌then◌else◌, arith, ℕ, ◌%◌, not,
  Bool, Option, List, Option-cases, ◌∙◌, Bool-cases, ap, length, ltb, map,
}
use support_block_miner.Base.Int.{ℤ, int_laws, pos_part, neg_part}
use mathlib.Core.List.{Memᴰ}
use mathlib.Core.Path.{subst}

-- An update that leaves the summand of each row leaves the sum.
sum_by-same :
    {Row : Type 0} (t : Table Row) (laws : IsTable t) (g : Row → ℤ) (p : Row → Bool) (f : Row → Row)
    (rs : List Row)
    → ((r : Row) → g (f r) ≡ g r)
    → sum_by g (t.update p f rs) ≡ sum_by g rs
sum_by-same {Row} t laws g p f rs same = rw (laws.update_rows p f rs) (by_row rs)
  where
    by_row : (rs : List Row) → sum_by g (map (λ r. if p r then f r else r) rs) ≡ sum_by g rs
    by_row [] = refl
    by_row (r ∷ rs) = elim (Bool-cases (p r)) [
      | inl on ↦ rw (on, same r, by_row rs) refl
      | inr off ↦ rw (off, by_row rs) refl
    ]

module _ (db : HouseDb) (laws : IsHouseDb db) (catalog_db : Table CatalogMiner)
    (weigh : Rig → ℤ) where
  -- Where the change does not throw, it keeps the sum and the unique keys.
  abbrev IsKept : House → Option House → Type 0
  IsKept h none = Unit
  IsKept h (some h') =
      (rigs weigh h' ≡ rigs weigh h) × HasUnique (λ (m : UserMiner). m.id) h'.miners

  IsKept-after :
      (h h1 : House) (o : Option House) → rigs weigh h1 ≡ rigs weigh h → IsKept h1 o → IsKept h o
  IsKept-after h h1 none same k = tt
  IsKept-after h h1 (some h') same k = (k.0 ∙ same, k.1)

  shelve_named-IsKept :
      (catalog : List CatalogMiner) (id now u : ℕ) (m : UserMiner) (h : House)
      → HasUnique (λ (m : UserMiner). m.id) h.miners
      → Memᴰ m h.miners
      → m.user_id ≡ u
      → IsKept h (shelve_named db catalog_db catalog id now u m h)
  unfolding shelve_named
  shelve_named-IsKept catalog id now u m h ids there mine =
      elim (Option-cases (miner_of db catalog_db catalog m)) [
        | inl unnamed ↦ rw (unnamed, shelve_named) tt
        | inr (c, named) ↦
            rw (named, shelve_named)
              (
                shelve-rigs db laws catalog_db weigh c.name (image_or m.image_url (some c)) id now u
                    m h ids there mine,
                shelve-ids db laws catalog_db weigh c.name (image_or m.image_url (some c)) id now u
                    m h ids,
              )
      ]

  shelve_all_named-IsKept :
      (catalog : List CatalogMiner) (id now u : ℕ) (ms : List UserMiner) (h : House)
      → HasUnique (λ (m : UserMiner). m.id) h.miners
      → ArePresent u ms h.miners
      → IsKept h (shelve_all_named db catalog_db catalog id now u ms h)
  unfolding shelve_all_named shelve_named
  shelve_all_named-IsKept catalog id now u [] h ids there = (refl, ids)
  shelve_all_named-IsKept catalog id now u (m ∷ ms) h ids there =
      elim (Option-cases (miner_of db catalog_db catalog m)) [
        | inl unnamed ↦ rw (unnamed, shelve_all_named) tt
        | inr (c, named) ↦
            let image = image_or m.image_url (some c) in
            let h1 = shelve db catalog_db c.name image id now u m h in
            rw (named, shelve_all_named)
              (IsKept-after h h1 (shelve_all_named db catalog_db catalog (id + 1) now u ms h1)
                (shelve-rigs db laws catalog_db weigh c.name image id now u m h ids there.1.0.1
                  there.1.0.0)
                (shelve_all_named-IsKept catalog (id + 1) now u ms h1
                  (shelve-ids db laws catalog_db weigh c.name image id now u m h ids)
                  (shelve-ArePresent db laws catalog_db weigh c.name image id now u m ms h there)))
      ]

  shelve_previous_named-IsKept :
      (catalog : List CatalogMiner) (id now u machine_id slot : ℕ) (h : House)
      → HasUnique (λ (m : UserMiner). m.id) h.miners
      → IsKept h (shelve_previous_named db catalog_db catalog id now u machine_id slot h)
  unfolding shelve_previous_named
  shelve_previous_named-IsKept catalog id now u machine_id slot h ids =
      elim (Bool-cases (slot % 2 == 1)) [
        | inr even ↦ rw (even, shelve_previous_named) (refl, ids)
        | inl odd ↦
            elim (Option-cases (
              db.miners.find
                (λ m. m.user_id == u && m.slot_index == slot - 1 && not (m.id == machine_id))
                h.miners)) [
                  | inl empty ↦ rw (odd, empty, shelve_previous_named) (refl, ids)
                  | inr (m, there) ↦
                      let (hit, member) = laws.miners.find_some _ _ _ there in
                      elim (Bool-cases (m.slot_size == 2)) [
                        | inr small ↦ rw (odd, there, small, shelve_previous_named) (refl, ids)
                        | inl large ↦
                            rw (odd, there, large, shelve_previous_named)
                              (shelve_named-IsKept catalog id now u m h ids member (ground arith))
                      ]
                ]
      ]

  change_slot-IsKept :
      (u machine_id slot : ℕ) (h : House)
      → HasUnique (λ (m : UserMiner). m.id) h.miners
      → IsKept h (change_slot db catalog_db u machine_id slot h)
  unfolding change_slot
  change_slot-IsKept u machine_id slot h ids =
      elim (Option-cases (
        db.miners.find (λ m. m.user_id == u && m.slot_index == slot && not (m.id == machine_id))
          h.miners)) [
            | inr (m, taken) ↦ rw (taken, change_slot) tt
            | inl free ↦
                let same =
                  sum_by-same db.miners laws.miners (λ m. weigh (rig_installed m))
                    (λ m. m.id == machine_id) (λ m. record m { slot_index = slot }) h.miners
                    (λ m. refl) in
                rw (free, change_slot)
                  (
                    omega (int_laws, ap pos_part same, ap neg_part same),
                    update-HasUnique db.miners laws.miners (λ m. m.id) (λ m. m.id == machine_id)
                        (λ m. record m { slot_index = slot }) h.miners (λ m. refl) ids,
                  )
          ]

  move_to_slot-IsKept :
      (catalog : List CatalogMiner) (key now u : ℕ) (machine : UserMiner) (slot : ℕ) (h : House)
      → HasUnique (λ (m : UserMiner). m.id) h.miners
      → IsKept h (move_to_slot db catalog_db catalog key now u machine slot h)
  unfolding move_to_slot
  move_to_slot-IsKept catalog key now u machine slot h ids =
      let p = λ (m : UserMiner).
        m.user_id == u
        && is_in_slots slot machine.slot_size m.slot_index
        && not (m.id == machine.id) in
      let ms = db.miners.find_many p h.miners in
      let there =
        found-ArePresent db laws catalog_db weigh u p h.miners (λ m q. ground arith) ids in
      let first = shelve_all_named-IsKept catalog key now u ms h ids there in
      elim (Option-cases (shelve_all_named db catalog_db catalog key now u ms h)) [
        | inl thrown ↦ rw (thrown, move_to_slot) tt
        | inr (h1, done) ↦
            let k1 : IsKept h (some h1) = subst (λ o. IsKept h o) done first in
            let second =
              shelve_previous_named-IsKept catalog (key + length ms) now u machine.id slot h1
                k1.1 in
            elim (Option-cases (
              shelve_previous_named db catalog_db catalog (key + length ms) now u machine.id slot
                h1)) [
                  | inl thrown ↦ rw (done, thrown, move_to_slot) tt
                  | inr (h2, done2) ↦
                      let k2 : IsKept h1 (some h2) = subst (λ o. IsKept h1 o) done2 second in
                      rw (done, done2, move_to_slot)
                        (IsKept-after h h2 (change_slot db catalog_db u machine.id slot h2)
                          (k2.0 ∙ k1.0) (change_slot-IsKept u machine.id slot h2 k2.1))
                ]
      ]

  pub move_machine-rigs :
      (catalog : List CatalogMiner) (key now u machine_id : ℕ) (target : Option ℕ) (h : House)
      → HasUnique (λ (m : UserMiner). m.id) h.miners
      → rigs weigh (move_machine db catalog_db catalog key now u machine_id target h).1
        ≡ rigs weigh h
  unfolding move_machine
  move_machine-rigs catalog key now u machine_id none h ids = refl
  move_machine-rigs catalog key now u machine_id (some slot) h ids =
      elim (Bool-cases (ltb slot board_slots)) [
        | inr outside ↦ rw (outside, move_machine) refl
        | inl inside ↦
            elim (Option-cases
              (db.miners.find (λ m. m.id == machine_id && m.user_id == u) h.miners)) [
                | inl gone ↦ rw (inside, gone, move_machine) refl
                | inr (m, there) ↦ elim (Bool-cases (m.slot_size == 2 && not (slot % 2 == 0))) [
                  | inl uneven ↦ rw (inside, there, uneven, move_machine) refl
                  | inr fits ↦
                      let kept = move_to_slot-IsKept catalog key now u m slot h ids in
                      elim (Option-cases (move_to_slot db catalog_db catalog key now u m slot h)) [
                        | inl thrown ↦ rw (inside, there, fits, thrown, move_machine) refl
                        | inr (h', done) ↦
                            let k : IsKept h (some h') = subst (λ o. IsKept h o) done kept in
                            rw (inside, there, fits, done, move_machine) k.0
                      ]
                ]
              ]
      ]

  pub remove_machine-rigs :
      (catalog : List CatalogMiner) (key now u machine_id : ℕ) (h : House)
      → HasUnique (λ (m : UserMiner). m.id) h.miners
      → rigs weigh (remove_machine db catalog_db catalog key now u machine_id h).1 ≡ rigs weigh h
  unfolding remove_machine
  remove_machine-rigs catalog key now u machine_id h ids =
      elim (Option-cases (db.miners.find (λ m. m.id == machine_id && m.user_id == u) h.miners)) [
        | inl gone ↦ rw (gone, remove_machine) refl
        | inr (m, there) ↦
            let (hit, member) = laws.miners.find_some _ _ _ there in
            rw (there, remove_machine)
              (shelve-rigs db laws catalog_db weigh _ _ key now u m h ids member (ground arith))
      ]

  pub toggle_machine-rigs :
      (u machine_id : ℕ) (is_active : Bool) (h : House)
      → rigs weigh (toggle_machine db catalog_db u machine_id is_active h).1 ≡ rigs weigh h
  unfolding toggle_machine
  toggle_machine-rigs u machine_id is_active h =
      elim (Option-cases (db.miners.find (λ m. m.id == machine_id && m.user_id == u) h.miners)) [
        | inl gone ↦ rw (gone, toggle_machine) refl
        | inr (m, there) ↦
            let same =
              sum_by-same db.miners laws.miners (λ m. weigh (rig_installed m))
                (λ m. m.id == machine_id) (λ m. record m { is_active = is_active }) h.miners
                (λ m. refl) in
            rw (there, toggle_machine) (omega (int_laws, ap pos_part same, ap neg_part same))
      ]
