-- ===== src/Tests/SlotsTests.antt =====
-- A run of the handlers that move machines by slot, and the theorem at that input.
use support_block_miner.Slots.Calls.{SlotStep-rigs, installs}
use support_block_miner.Slots.Install.{install_inventory_item, install_in_slot}
use support_block_miner.Slots.Owned.{rigs}
use support_block_miner.Rooms.State.{House}
use support_block_miner.Database.{UserInventory, UserMiner}
use support_block_miner.Tests.Stores.{house_db, house_db-IsHouseDb, small_miner}
use support_block_miner.Base.Table.{memory}
use support_block_miner.Base.{none, some, true, [], ◌∷◌, refl, ◌≡◌, arith}
use support_block_miner.Base.Int.{pos}
use support_block_miner.Base.Http.{accepted}

abbrev large_item : UserInventory
large_item = record {
  id = 40;
  user_id = 7;
  miner_id = some 2;
  miner_name = "Large";
  level = 1;
  hash_rate = pos 120;
  slot_size = 2;
  image_url = none;
  acquired_at = 0;
  expires_at = none;
}

abbrev old_machine : UserMiner
old_machine = record {
  id = 50;
  user_id = 7;
  miner_id = some 2;
  slot_index = 5;
  level = 1;
  hash_rate = pos 30;
  slot_size = 1;
  image_url = none;
  is_active = true;
}

-- A machine in the second slot of the two that the item needs.
abbrev yard : House
yard = record {
  users = [];
  rooms = [];
  racks = [];
  miners = old_machine ∷ [];
  inventory = large_item ∷ [];
  engine = none;
}

installed :
    (install_inventory_item house_db memory
      (small_miner ∷ [])
      51
      41
      1000
      7
      (some 4)
      (some 40)
      yard).0
    ≡ accepted tt
unfolding install_inventory_item install_in_slot
installed = refl

abbrev rearranged : House
rearranged =
    (install_inventory_item house_db memory (small_miner ∷ []) 51 41 1000 7 (some 4) (some 40)
      yard).1

SlotStep-rigs_example : rigs (λ r. r.hash_rate) rearranged ≡ rigs (λ r. r.hash_rate) yard
SlotStep-rigs_example =
    SlotStep-rigs house_db memory (small_miner ∷ []) house_db-IsHouseDb (λ r. r.hash_rate) 41 yard
      rearranged (installs 51 1000 7 (some 4) (some 40) yard) (tt, tt) ((tt, tt), (omega arith, tt))
