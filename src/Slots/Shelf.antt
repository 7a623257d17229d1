-- ===== src/Slots/Shelf.antt =====
-- What both handlers do with a machine that is in the way: it goes back to the inventory
-- (server/controllers/inventoryController.js, server/controllers/machinesController.js). The key of a
-- new row and the time are arguments.
use text.Mathlib.Text.{◌==◌ as str_eq}
use support_block_miner.Rooms.State.{House, HouseDb}
use support_block_miner.Base.{
  none, some, ◌+◌, ◌&&◌, if◌then◌else◌, ℕ, Option, Bool, String, leb, ltb, List, ◌==◌,
}
use support_block_miner.Base.Table.{Table}
use support_block_miner.Shop.Purchase.{CatalogMiner}
use support_block_miner.Database.{UserMiner, UserInventory}
use support_block_miner.Rooms.Install.{is_miner_in}

abbrev pub board_slots : ℕ
board_slots = 80

-- `m.imageUrl || m.miner?.imageUrl`
abbrev pub image_or : Option String → Option CatalogMiner → Option String
image_or (some url) m = some url
image_or none none = none
image_or none (some m) = m.image_url

-- `machine.image_url || machine.imageUrl` of `removeMachine`, where `getMachineById` has put the image of
-- the catalogue first.
abbrev pub catalog_image : Option CatalogMiner → Option String → Option String
catalog_image none own = own
catalog_image (some c) own = elim c.image_url [ some url ↦ some url | none ↦ own ]

abbrev pub is_in_slots : ℕ → ℕ → ℕ → Bool
is_in_slots start size s = leb start s && ltb s (start + size)

module _ (db : HouseDb) (catalog_db : Table CatalogMiner) where
  -- `include: { miner: true }`
  abbrev pub miner_of : List CatalogMiner → UserMiner → Option CatalogMiner
  miner_of catalog m = elim m.miner_id [
    | none ↦ none
    | some i ↦ catalog_db.find (λ c. c.id == i) catalog
  ]

  abbrev pub shelved : String → Option String → ℕ → ℕ → ℕ → UserMiner → UserInventory
  shelved name image id now u m = record {
    id = id;
    user_id = u;
    miner_id = m.miner_id;
    miner_name = name;
    level = m.level;
    hash_rate = m.hash_rate;
    slot_size = m.slot_size;
    image_url = image;
    acquired_at = now;
    expires_at = none;
  }

  -- The two writes: a new item, and the machine deleted, which the foreign key of its rack makes null;
  -- `blocked_by_miner_id` has no foreign key.
  unfoldable pub shelve : String → Option String → ℕ → ℕ → ℕ → UserMiner → House → House
  shelve name image id now u m h = record h {
    inventory = db.inventory.create (shelved name image id now u m) h.inventory;
    miners = db.miners.delete (λ x. x.id == m.id) h.miners;
    racks =
        db.racks.update (λ r. is_miner_in r.user_miner_id m.id)
          (λ r. record r { user_miner_id = none }) h.racks;
  }

  -- `m.miner?.name || m.minerName || 'Miner'`; a machine has no name of its own.
  abbrev pub name_or_default : Option CatalogMiner → String
  name_or_default none = "Miner"
  name_or_default (some m) = if str_eq m.name "" then "Miner" else m.name

  -- As both handlers shelve a machine that is in the way.
  unfoldable pub shelve_default : List CatalogMiner → ℕ → ℕ → ℕ → UserMiner → House → House
  unfolding shelve
  shelve_default catalog id now u m h =
      let c = miner_of catalog m in shelve (name_or_default c) (image_or m.image_url c) id now u m h
