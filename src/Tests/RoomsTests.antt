-- ===== src/Tests/RoomsTests.antt =====
-- Runs of the rooms' handlers, and their theorems at those inputs.
use support_block_miner.Rooms.Machines.{
  install_miner-owned, owned, HasOwnMiner, uninstall_miner-owned,
}
use support_block_miner.Base.{none, some, true, [], ◌∷◌, refl, ◌≡◌, arith, ℕ, Option, All, map}
use support_block_miner.Base.Int.{pos}
use support_block_miner.Rooms.State.{RoomSettings, House}
use support_block_miner.Database.{User, UserInventory, UserMiner, UserRack}
use support_block_miner.Rooms.Install.{install_miner, put_in_rack, uninstall_miner}
use support_block_miner.Rooms.Purchases.{Sale, buy_room-Sale}
use support_block_miner.Tests.Stores.{house_db, counts, house_db-IsHouseDb}
use support_block_miner.Rooms.Buy.{buy_room}
use support_block_miner.Accounts.{IsSolvent}

abbrev settings : RoomSettings
settings = record {
  racks_per_room = 24;
  room_max = 4;
  room_prices = some (pos 0) ∷ some (pos 500) ∷ some (pos 900) ∷ some (pos 2000) ∷ [];
}

abbrev tenant : User
tenant = record { id = 7; pol_balance = pos 600; usdc_balance = pos 0; wallet_address = none }

abbrev rack : ℕ → ℕ → Option ℕ → UserRack
rack id position m = record {
  id = id;
  user_id = 7;
  room_id = 3;
  position = position;
  user_miner_id = m;
  blocked_by_miner_id = none;
  installed_at = none;
}

abbrev item : UserInventory
item = record {
  id = 40;
  user_id = 7;
  miner_id = some 2;
  miner_name = "Large";
  level = 1;
  hash_rate = pos 120;
  slot_size = 2;
  image_url = none;
  acquired_at = 0;
  expires_at = none;
}

abbrev machine : UserMiner
machine = record {
  id = 50;
  user_id = 7;
  miner_id = some 1;
  slot_index = 1005;
  level = 1;
  hash_rate = pos 30;
  slot_size = 1;
  image_url = none;
  is_active = true;
}

-- One room with a free pair of racks and a machine in a third.
abbrev house : House
house = record {
  users = tenant ∷ [];
  rooms = record { id = 3; user_id = 7; room_number = 1; price_paid = pos 0 } ∷ [];
  racks = rack 10 0 none ∷ rack 11 1 none ∷ rack 12 5 (some 50) ∷ [];
  miners = machine ∷ [];
  inventory = item ∷ [];
  engine = none;
}

moved :
    let h' = (install_miner settings house_db 51 900 7 (some 10) (some 40) house).1 in
    (map (λ r. r.user_miner_id) h'.racks ≡ some 51 ∷ none ∷ some 50 ∷ [])
    × (map (λ r. r.blocked_by_miner_id) h'.racks ≡ none ∷ some 51 ∷ none ∷ [])
unfolding install_miner put_in_rack
moved = (refl, refl)

install_miner-owned_example :
    owned (λ m. m.hash_rate) (install_miner settings house_db 51 900 7 (some 10) (some 40) house).1
    ≡ owned (λ m. m.hash_rate) house
install_miner-owned_example =
    install_miner-owned settings house_db house_db-IsHouseDb 51 900 7 (some 10) (some 40) house
      (λ m. m.hash_rate) (tt, tt)

house-HasOwnMiner : All (HasOwnMiner house.miners) house.racks
house-HasOwnMiner = ground arith

uninstall_miner-owned_example :
    owned (λ m. m.hash_rate) (uninstall_miner settings house_db 41 900 7 (some 12) house).1
    ≡ owned (λ m. m.hash_rate) house
uninstall_miner-owned_example =
    uninstall_miner-owned settings house_db house_db-IsHouseDb 41 900 7 (some 12) house
      (λ m. m.hash_rate) (tt, tt) house-HasOwnMiner

house-IsSolvent : IsSolvent house.users
house-IsSolvent = record { ids = (tt, tt); covered = (omega arith, tt) }

buy_room-Sale_example :
    Sale counts settings house_db house_db-IsHouseDb 7 house
      (buy_room counts settings house_db 4 60 7 house)
    × IsSolvent (buy_room counts settings house_db 4 60 7 house).1.users
buy_room-Sale_example =
    buy_room-Sale counts settings house_db house_db-IsHouseDb 4 60 7 house house-IsSolvent
