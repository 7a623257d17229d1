-- ===== src/Rooms/Install.antt =====
-- `installMiner` and `uninstallMiner` (server/controllers/roomsController.js). The key that the
-- database gives a new row and the time are arguments; a request's id is none where it is no positive
-- integer. `syncUserBaseHashRate` reads only, and the reload of the profile and the notification
-- change nothing of the tables.
use support_block_miner.Base.{
  none, some, true, false, ◌==◌, ◌+◌, ◌-◌, ◌*◌, ◌&&◌, if◌then◌else◌, ℕ, not, is_some, Option, Bool,
  List, leb,
}
use support_block_miner.Base.Http.{accepted, rejected, Response}
use support_block_miner.Database.{UserRack, UserInventory, UserRoom, UserMiner}
use support_block_miner.Rooms.State.{RoomSettings, HouseDb, House}

abbrev pub is_free : UserRack → Bool
is_free r = not (is_some r.user_miner_id) && not (is_some r.blocked_by_miner_id)

-- `a || 1` for a slot size
abbrev pub slots_of : ℕ → ℕ
slots_of size = if size == 0 then 1 else size

-- `1000 + (roomNumber - 1) * RACKS_PER_ROOM + position`; rooms are numbered from 1.
abbrev pub rack_slot_index : RoomSettings → ℕ → ℕ → ℕ
rack_slot_index settings room_number position =
    1000 + (room_number - 1) * settings.racks_per_room + position

abbrev pub is_miner_in : Option ℕ → ℕ → Bool
is_miner_in none i = false
is_miner_in (some j) i = j == i

module _ (settings : RoomSettings) (db : HouseDb) where
  abbrev pub installed_miner : ℕ → ℕ → ℕ → UserInventory → UserMiner
  installed_miner id u slot_index item = record {
    id = id;
    user_id = u;
    miner_id = item.miner_id;
    slot_index = slot_index;
    level = item.level;
    hash_rate = item.hash_rate;
    slot_size = item.slot_size;
    image_url = item.image_url;
    is_active = true;
  }

  -- The second rack of a large machine, where there is one.
  abbrev pub block_adjacent : Option UserRack → ℕ → List UserRack → List UserRack
  block_adjacent none id racks = racks
  block_adjacent (some adjacent) id racks =
      db.racks.update (λ r. r.id == adjacent.id) (λ r. record r { blocked_by_miner_id = some id })
        racks

  -- The `$transaction` of `installMiner`. A slot index that the user's machines have already breaks
  -- the unique key of the table, and the transaction throws.
  unfoldable pub put_in_rack :
      ℕ
      → ℕ
      → ℕ
      → ℕ
      → UserRack
      → Option UserRack
      → UserInventory
      → House
      → Response (Unit {0}) × House
  put_in_rack id now u slot_index rack adjacent item h =
      elim (db.miners.find (λ m. m.user_id == u && m.slot_index == slot_index) h.miners) [
        | some _ ↦ (rejected 500 "Erro ao instalar máquina.", h)
        | none ↦ (
          accepted tt,
          record h {
            miners = db.miners.create (installed_miner id u slot_index item) h.miners;
            racks = block_adjacent adjacent id (
                db.racks.update (λ r. r.id == rack.id)
                  (λ r. record r { user_miner_id = some id; installed_at = some now }) h.racks);
            inventory = db.inventory.delete (λ i. i.id == item.id) h.inventory;
          },
        )
      ]

  -- From the rack of the machine's last slot on, for a machine of two slots or more.
  unfoldable pub install_large :
      ℕ → ℕ → ℕ → ℕ → UserRack → UserInventory → House → Response (Unit {0}) × House
  unfolding put_in_rack
  install_large id now u slot_index rack item h =
      let last = rack.position + (slots_of item.slot_size - 1) in
      elim (db.racks.find (λ r. r.room_id == rack.room_id && r.position == last) h.racks) [
        | none ↦ (rejected 400 "NO_SPACE", h)
        | some adjacent ↦
            if is_free adjacent
            then put_in_rack id now u slot_index rack (some adjacent) item h
            else (rejected 400 "ADJACENT_RACK_OCCUPIED", h)
      ]

  -- From the search for the item on; the room of the rack is known.
  unfoldable pub install_item :
      ℕ → ℕ → ℕ → UserRoom → UserRack → ℕ → House → Response (Unit {0}) × House
  unfolding install_large
  install_item id now u room rack inventory_id h =
      elim (db.inventory.find (λ i. i.id == inventory_id && i.user_id == u) h.inventory) [
        | none ↦ (rejected 404 "Item não encontrado no inventário.", h)
        | some item ↦
            let slot_index = rack_slot_index settings room.room_number rack.position in
            if leb 2 (slots_of item.slot_size)
            then install_large id now u slot_index rack item h
            else put_in_rack id now u slot_index rack none item h
      ]

  unfoldable pub install_at : ℕ → ℕ → ℕ → ℕ → ℕ → House → Response (Unit {0}) × House
  unfolding install_item
  install_at id now u rack_id inventory_id h =
      elim (db.racks.find (λ r. r.id == rack_id && r.user_id == u) h.racks) [
        | none ↦ (rejected 404 "Rack não encontrado.", h)
        | some rack ↦
            if is_free rack
            then elim (db.rooms.find (λ r. r.id == rack.room_id) h.rooms) [
              | none ↦ (rejected 500 "Erro ao instalar máquina.", h)
              | some room ↦ install_item id now u room rack inventory_id h
            ]
            else (rejected 400 "RACK_OCCUPIED", h)
      ]

  -- `installMiner(req, res)`
  unfoldable pub install_miner :
      ℕ → ℕ → ℕ → Option ℕ → Option ℕ → House → Response (Unit {0}) × House
  unfolding install_at
  install_miner id now u none inventory_id h = (rejected 400 "rackId inválido.", h)
  install_miner id now u (some rack_id) none h = (rejected 400 "inventoryId inválido.", h)
  install_miner id now u (some rack_id) (some inventory_id) h =
      install_at id now u rack_id inventory_id h

  -- The item that `uninstallMiner` puts into the inventory.
  abbrev pub returned_item : ℕ → ℕ → ℕ → UserMiner → UserInventory
  returned_item id now u m = record {
    id = id;
    user_id = u;
    miner_id = m.miner_id;
    miner_name = "Máquina";
    level = m.level;
    hash_rate = m.hash_rate;
    slot_size = m.slot_size;
    image_url = m.image_url;
    acquired_at = now;
    expires_at = none;
  }

  -- The `$transaction` of `uninstallMiner`.
  unfoldable pub take_from_rack : ℕ → ℕ → ℕ → UserRack → UserMiner → House → House
  take_from_rack id now u rack m h = record h {
    racks =
        db.racks.update (λ r. r.room_id == rack.room_id && is_miner_in r.blocked_by_miner_id m.id)
          (λ r. record r { blocked_by_miner_id = none })
          (db.racks.update (λ r. r.id == rack.id)
            (λ r. record r { user_miner_id = none; installed_at = none }) h.racks);
    inventory = db.inventory.create (returned_item id now u m) h.inventory;
    miners = db.miners.delete (λ x. x.id == m.id) h.miners;
  }

  -- `uninstallMiner(req, res)`
  unfoldable pub uninstall_miner : ℕ → ℕ → ℕ → Option ℕ → House → Response (Unit {0}) × House
  unfolding take_from_rack
  uninstall_miner id now u none h = (rejected 400 "rackId inválido.", h)
  uninstall_miner id now u (some rack_id) h =
      elim (db.racks.find (λ r. r.id == rack_id && r.user_id == u) h.racks) [
        | none ↦ (rejected 404 "Rack não encontrado.", h)
        | some rack ↦ elim rack.user_miner_id [
          | none ↦ (rejected 400 "RACK_EMPTY", h)
          | some miner_id ↦ elim (db.miners.find (λ m. m.id == miner_id) h.miners) [
            | none ↦ (rejected 400 "RACK_EMPTY", h)
            | some m ↦ (accepted tt, take_from_rack id now u rack m h)
          ]
        ]
      ]
