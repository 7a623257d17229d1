-- ===== src/Rooms/State.antt =====
-- What the handlers of the rooms read and change: five tables and the engine in memory.
use support_block_miner.Base.{ℕ, List, Option}
use support_block_miner.Base.Table.{Table, IsTable}
use support_block_miner.Database.{User, UserRoom, UserRack, UserMiner, UserInventory}
use support_block_miner.Base.Int.{ℤ}
use support_block_miner.Engine.State.{Engine}

pub record House : Type 0 where
  pub users : List User
  pub rooms : List UserRoom
  pub racks : List UserRack
  pub miners : List UserMiner
  pub inventory : List UserInventory
  pub engine : Option (Engine ℤ)

-- The database client for the tables. `create_many` of racks is one `create` for each row.
pub record HouseDb : Type 0 where
  pub users : Table User
  pub rooms : Table UserRoom
  pub racks : Table UserRack
  pub miners : Table UserMiner
  pub inventory : Table UserInventory

pub record IsHouseDb (db : HouseDb) : Type 0 where
  pub users : IsTable db.users
  pub rooms : IsTable db.rooms
  pub racks : IsTable db.racks
  pub miners : IsTable db.miners
  pub inventory : IsTable db.inventory

-- The settings of the environment: `RACKS_PER_ROOM`, `ROOM_MAX` and `ROOM_PRICES`, where a price that
-- `parseFloat` cannot read is none.
pub record RoomSettings : Type 0 where
  pub racks_per_room : ℕ
  pub room_max : ℕ
  pub room_prices : List (Option ℤ)
