-- ===== src/Slots/Move.antt =====
-- `moveMachine` (server/controllers/machinesController.js). A machine in the way that has no name in the
-- catalogue makes the new item invalid, and the `$transaction` throws.
use support_block_miner.Rooms.State.{House, HouseDb}
use support_block_miner.Base.{
  none, some, [], ◌∷◌, ◌==◌, ◌+◌, ◌-◌, ◌&&◌, if◌then◌else◌, ℕ, ◌%◌, not, List, Option, ltb, length,
}
use support_block_miner.Base.Http.{accepted, rejected, Response}
use support_block_miner.Base.Table.{Table}
use support_block_miner.Shop.Purchase.{CatalogMiner}
use support_block_miner.Slots.Shelf.{shelve, miner_of, is_in_slots, board_slots, image_or}
use support_block_miner.Database.{UserMiner}

module _ (db : HouseDb) (catalog_db : Table CatalogMiner) where
  -- One machine out of the way; none where the transaction throws.
  unfoldable pub shelve_named : List CatalogMiner → ℕ → ℕ → ℕ → UserMiner → House → Option House
  unfolding shelve
  shelve_named catalog id now u m h = elim (miner_of db catalog_db catalog m) [
    | none ↦ none
    | some c ↦ some (shelve db catalog_db c.name (image_or m.image_url (some c)) id now u m h)
  ]

  -- The loop over the machines in the way.
  unfoldable pub shelve_all_named :
      List CatalogMiner → ℕ → ℕ → ℕ → List UserMiner → House → Option House
  unfolding shelve_named
  shelve_all_named catalog id now u [] h = some h
  shelve_all_named catalog id now u (m ∷ ms) h = elim (shelve_named catalog id now u m h) [
    | none ↦ none
    | some h' ↦ shelve_all_named catalog (id + 1) now u ms h'
  ]

  -- A large machine that starts in the slot before.
  unfoldable pub shelve_previous_named :
      List CatalogMiner → ℕ → ℕ → ℕ → ℕ → ℕ → House → Option House
  unfolding shelve_named
  shelve_previous_named catalog id now u machine_id slot h =
      if slot % 2 == 1
      then elim (db.miners.find
          (λ m. m.user_id == u && m.slot_index == slot - 1 && not (m.id == machine_id)) h.miners) [
            | none ↦ some h
            | some m ↦ if m.slot_size == 2 then shelve_named catalog id now u m h else some h
          ]
      else some h

  -- The change of the slot; two machines of a user in one slot break the unique key of the table.
  unfoldable pub change_slot : ℕ → ℕ → ℕ → House → Option House
  change_slot u machine_id slot h =
      elim (db.miners.find (λ m. m.user_id == u && m.slot_index == slot && not (m.id == machine_id))
        h.miners) [
          | some _ ↦ none
          | none ↦ some (record h {
            miners =
                db.miners.update (λ m. m.id == machine_id) (λ m. record m { slot_index = slot })
                  h.miners;
          })
        ]

  -- The `$transaction`.
  unfoldable pub move_to_slot : List CatalogMiner → ℕ → ℕ → ℕ → UserMiner → ℕ → House → Option House
  unfolding shelve_all_named shelve_previous_named change_slot
  move_to_slot catalog item_key now u machine slot h =
      let ms =
        db.miners.find_many
          (λ m.
            m.user_id == u
            && is_in_slots slot machine.slot_size m.slot_index
            && not (m.id == machine.id))
          h.miners in
      elim (shelve_all_named catalog item_key now u ms h) [
        | none ↦ none
        | some h1 ↦
            elim (shelve_previous_named catalog (item_key + length ms) now u machine.id slot h1) [
              | none ↦ none
              | some h2 ↦ change_slot u machine.id slot h2
            ]
      ]

  -- `moveMachine(req, res)`; the target is none where it is no integer from 0 on.
  unfoldable pub move_machine :
      List CatalogMiner → ℕ → ℕ → ℕ → ℕ → Option ℕ → House → Response (Unit {0}) × House
  unfolding move_to_slot
  move_machine catalog item_key now u machine_id none h = (rejected 400 "Invalid target slot.", h)
  move_machine catalog item_key now u machine_id (some slot) h =
      if ltb slot board_slots
      then elim (db.miners.find (λ m. m.id == machine_id && m.user_id == u) h.miners) [
        | none ↦ (rejected 404 "Machine not found.", h)
        | some m ↦
            if m.slot_size == 2 && not (slot % 2 == 0)
            then (rejected 400 "Large machines must start on an even slot.", h)
            else elim (move_to_slot catalog item_key now u m slot h) [
              | none ↦ (rejected 500 "Error moving machine.", h)
              | some h' ↦ (accepted tt, h')
            ]
      ]
      else (rejected 400 "Invalid target slot.", h)
