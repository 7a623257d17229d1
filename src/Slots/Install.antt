-- ===== src/Slots/Install.antt =====
-- `installInventoryItem` and `removeInventoryItem` (server/controllers/inventoryController.js), and
-- `removeMachine` and `toggleMachine` (server/controllers/machinesController.js). `syncUserBaseHashRate`
-- reads only, and the reload of the profile and the notification change nothing of the tables.
use support_block_miner.Rooms.State.{House, HouseDb}
use support_block_miner.Base.{
  none, some, true, [], ◌∷◌, ◌==◌, ◌+◌, ◌-◌, ◌&&◌, if◌then◌else◌, ℕ, ◌%◌, not, List, Bool, Option,
  length, ltb,
}
use support_block_miner.Base.Http.{accepted, rejected, Response}
use support_block_miner.Base.Table.{Table}
use support_block_miner.Shop.Purchase.{CatalogMiner, image_or_default}
use support_block_miner.Slots.Shelf.{
  shelve, name_or_default, miner_of, is_in_slots, board_slots, shelve_default, catalog_image,
}
use support_block_miner.Database.{UserInventory, UserMiner}
use support_block_miner.Rooms.Install.{slots_of}

module _ (db : HouseDb) (catalog_db : Table CatalogMiner) where
  -- The loop over the machines in the way; the items have the keys from `id` on.
  unfoldable pub shelve_each : List CatalogMiner → ℕ → ℕ → ℕ → List UserMiner → House → House
  unfolding shelve_default
  shelve_each catalog id now u [] h = h
  shelve_each catalog id now u (m ∷ ms) h =
      shelve_each catalog (id + 1) now u ms (shelve_default db catalog_db catalog id now u m h)

  -- A large machine that starts in the slot before.
  unfoldable pub shelve_previous : List CatalogMiner → ℕ → ℕ → ℕ → ℕ → House → House
  unfolding shelve_default
  shelve_previous catalog id now u slot h =
      if slot % 2 == 1
      then elim (db.miners.find (λ m. m.user_id == u && m.slot_index == slot - 1) h.miners) [
        | none ↦ h
        | some m ↦ if m.slot_size == 2 then shelve_default db catalog_db catalog id now u m h else h
      ]
      else h

  abbrev pub placed_miner : ℕ → ℕ → ℕ → UserInventory → UserMiner
  placed_miner id u slot item = record {
    id = id;
    user_id = u;
    miner_id = item.miner_id;
    slot_index = slot;
    level = item.level;
    hash_rate = item.hash_rate;
    slot_size = slots_of item.slot_size;
    image_url = image_or_default item.image_url;
    is_active = true;
  }

  -- The new machine in place of the item.
  unfoldable pub place_item : ℕ → ℕ → ℕ → UserInventory → House → House
  place_item id u slot item h = record h {
    miners = db.miners.create (placed_miner id u slot item) h.miners;
    inventory = db.inventory.delete (λ i. i.id == item.id && i.user_id == u) h.inventory;
  }

  abbrev pub in_the_way : ℕ → ℕ → ℕ → House → List UserMiner
  in_the_way u slot size h =
      db.miners.find_many (λ m. m.user_id == u && is_in_slots slot size m.slot_index) h.miners

  -- The `$transaction` of `installInventoryItem`.
  unfoldable pub put_in_slot : List CatalogMiner → ℕ → ℕ → ℕ → ℕ → ℕ → UserInventory → House → House
  unfolding shelve_each shelve_previous place_item
  put_in_slot catalog miner_key item_key now u slot item h =
      let ms = in_the_way u slot (slots_of item.slot_size) h in
      place_item miner_key u slot item (
        shelve_previous catalog (item_key + length ms) now u slot
          (shelve_each catalog item_key now u ms h))

  -- From the search for the item on.
  unfoldable pub install_in_slot :
      List CatalogMiner → ℕ → ℕ → ℕ → ℕ → ℕ → ℕ → House → Response (Unit {0}) × House
  unfolding put_in_slot
  install_in_slot catalog miner_key item_key now u slot inventory_id h =
      elim (db.inventory.find (λ i. i.id == inventory_id && i.user_id == u) h.inventory) [
        | none ↦ (rejected 404 "Item not found in inventory.", h)
        | some item ↦
            if slots_of item.slot_size == 2 && not (slot % 2 == 0)
            then (rejected 400 "Large machines must start on an even slot (1, 3, 5, 7 on UI).", h)
            else (accepted tt, put_in_slot catalog miner_key item_key now u slot item h)
      ]

  -- `installInventoryItem(req, res)`; a number of the request is none where it is no integer from 0 on.
  unfoldable pub install_inventory_item :
      List CatalogMiner → ℕ → ℕ → ℕ → ℕ → Option ℕ → Option ℕ → House → Response (Unit {0}) × House
  unfolding install_in_slot
  install_inventory_item catalog miner_key item_key now u none inventory_id h =
      (rejected 400 "Invalid slot position.", h)
  install_inventory_item catalog miner_key item_key now u (some slot) inventory_id h =
      if ltb slot board_slots
      then elim inventory_id [
        | none ↦ (rejected 404 "Item not found in inventory.", h)
        | some i ↦ install_in_slot catalog miner_key item_key now u slot i h
      ]
      else (rejected 400 "Invalid slot position.", h)

  -- `removeInventoryItem(req, res)`: deleting a row that is not there throws.
  unfoldable pub remove_inventory_item : ℕ → ℕ → House → Response (Unit {0}) × House
  remove_inventory_item u inventory_id h =
      elim (db.inventory.find (λ i. i.id == inventory_id && i.user_id == u) h.inventory) [
        | none ↦ (rejected 500 "Error removing item.", h)
        | some _ ↦ (
          accepted tt,
          record h {
            inventory =
                db.inventory.delete (λ i. i.id == inventory_id && i.user_id == u) h.inventory;
          },
        )
      ]

  -- `removeMachine(req, res)`
  unfoldable pub remove_machine :
      List CatalogMiner → ℕ → ℕ → ℕ → ℕ → House → Response (Unit {0}) × House
  unfolding shelve
  remove_machine catalog item_key now u machine_id h =
      elim (db.miners.find (λ m. m.id == machine_id && m.user_id == u) h.miners) [
        | none ↦ (rejected 404 "Miner not found.", h)
        | some m ↦
            let c = miner_of db catalog_db catalog m in
            (
              accepted tt,
              shelve db catalog_db (name_or_default db catalog_db c) (catalog_image c m.image_url)
                  item_key now u m h,
            )
      ]

  -- `toggleMachine(req, res)`
  unfoldable pub toggle_machine : ℕ → ℕ → Bool → House → Response (Unit {0}) × House
  toggle_machine u machine_id is_active h =
      elim (db.miners.find (λ m. m.id == machine_id && m.user_id == u) h.miners) [
        | none ↦ (rejected 404 "Machine not found.", h)
        | some m ↦ (
          accepted tt,
          record h {
            miners =
                db.miners.update (λ x. x.id == machine_id) (λ x. record x { is_active = is_active })
                  h.miners;
          },
        )
      ]
