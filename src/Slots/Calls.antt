-- ===== src/Slots/Calls.antt =====
-- The handlers that move machines by slot, together (server/controllers/inventoryController.js,
-- server/controllers/machinesController.js).
use support_block_miner.Rooms.State.{House, HouseDb, IsHouseDb}
use support_block_miner.Database.{UserMiner}
use support_block_miner.Base.Table.{Table, HasUnique}
use support_block_miner.Shop.Purchase.{CatalogMiner}
use support_block_miner.Slots.Owned.{rigs, Rig}
use support_block_miner.Slots.Kept.{IsKeyed, install_inventory_item-rigs}
use support_block_miner.Slots.Moved.{move_machine-rigs, remove_machine-rigs, toggle_machine-rigs}
use support_block_miner.Slots.Install.{install_inventory_item, remove_machine, toggle_machine}
use support_block_miner.Slots.Move.{move_machine}
use support_block_miner.Base.{◌≡◌, ℕ, List, Option, Bool}
use support_block_miner.Base.Int.{ℤ}

module _ (db : HouseDb) (catalog_db : Table CatalogMiner) (catalog : List CatalogMiner) where
  -- One request; the new items of an installation have the keys from `k` on.
  pub data SlotStep (k : ℕ) : House → House → Type 0 where
    installs :
        (key now u : ℕ) (slot inventory_id : Option ℕ) (h : House)
        → SlotStep k h
            (install_inventory_item db catalog_db catalog key k now u slot inventory_id h).1
    moves :
        (now u machine_id : ℕ) (target : Option ℕ) (h : House)
        → SlotStep k h (move_machine db catalog_db catalog k now u machine_id target h).1
    removes :
        (now u machine_id : ℕ) (h : House)
        → SlotStep k h (remove_machine db catalog_db catalog k now u machine_id h).1
    toggles :
        (u machine_id : ℕ) (is_active : Bool) (h : House)
        → SlotStep k h (toggle_machine db catalog_db u machine_id is_active h).1

  -- A request to install, move, remove or switch a machine neither makes nor loses a machine, whatever it
  -- answers and however many machines it moves out of the way: any weight of the machines by their
  -- user, their model, their level and their hash rate, summed over the slots and the inventory, stays as it
  -- was. No two machines and no two items share a key, and the keys of new items are above those of the
  -- inventory.
  pub SlotStep-rigs :
      (laws : IsHouseDb db) (weigh : Rig → ℤ) (k : ℕ) (h h' : House)
      → SlotStep k h h'
      → HasUnique (λ (m : UserMiner). m.id) h.miners
      → IsKeyed k h
      → rigs weigh h' ≡ rigs weigh h
  SlotStep-rigs laws weigh k _ _ (installs key now u slot inventory_id h) ids keyed =
      install_inventory_item-rigs db laws catalog_db weigh catalog key k now u slot inventory_id h
        ids keyed
  SlotStep-rigs laws weigh k _ _ (moves now u machine_id target h) ids keyed =
      move_machine-rigs db laws catalog_db weigh catalog k now u machine_id target h ids
  SlotStep-rigs laws weigh k _ _ (removes now u machine_id h) ids keyed =
      remove_machine-rigs db laws catalog_db weigh catalog k now u machine_id h ids
  SlotStep-rigs laws weigh k _ _ (toggles u machine_id is_active h) ids keyed =
      toggle_machine-rigs db laws catalog_db weigh u machine_id is_active h
