-- ===== src/Tests/Stores.antt =====
-- The parameters of the parts for the tests: tables in memory, and numbers as integer counts.
use support_block_miner.Wallet.State.{WalletDb, IsWalletDb}
use support_block_miner.Rooms.State.{HouseDb, IsHouseDb}
use support_block_miner.Base.Table.{memory, memory-IsTable}
use support_block_miner.Base.Int.{pos, ℤ, ◌+ℤ◌, ◌-ℤ◌, pos_part, leb_ℤ, neg_part}
use support_block_miner.Base.{◌==◌, ◌*◌, ◌&&◌, ◌/◌, none, true, false}
use support_block_miner.Engine.Numbers.{Numbers}
use support_block_miner.Faucet.Claims.{FaucetDb, IsFaucetDb}
use support_block_miner.Shop.Purchase.{CatalogMiner}

abbrev pub counts : Numbers ℤ
counts = record {
  ratio = λ p q. pos (p / q);
  add = ◌+ℤ◌;
  sub = ◌-ℤ◌;
  mul = λ a b. pos (pos_part a * pos_part b);
  div = λ a b. pos (pos_part a / pos_part b);
  leb = leb_ℤ;
  falsy = λ a. pos_part a == 0 && neg_part a == 0;
}

abbrev pub wallet_db : WalletDb
wallet_db = record {
  amount_of_wei = λ value. pos (value / 10_000_000_000);
  users = memory;
  transactions = memory;
}

pub wallet_db-IsWalletDb : IsWalletDb wallet_db
wallet_db-IsWalletDb = record { users = memory-IsTable; transactions = memory-IsTable }

abbrev pub house_db : HouseDb
house_db = record {
  users = memory;
  rooms = memory;
  racks = memory;
  miners = memory;
  inventory = memory;
}

pub house_db-IsHouseDb : IsHouseDb house_db
house_db-IsHouseDb = record {
  users = memory-IsTable;
  rooms = memory-IsTable;
  racks = memory-IsTable;
  miners = memory-IsTable;
  inventory = memory-IsTable;
}

abbrev pub faucet_db : FaucetDb
faucet_db = record {
  rewards = memory;
  catalog = memory;
  claims = memory;
  visits = memory;
  inventory = memory;
}

pub faucet_db-IsFaucetDb : IsFaucetDb faucet_db
faucet_db-IsFaucetDb = record {
  rewards = memory-IsTable;
  catalog = memory-IsTable;
  claims = memory-IsTable;
  visits = memory-IsTable;
  inventory = memory-IsTable;
}

-- A machine of the catalogue that is in the shop.
abbrev pub small_miner : CatalogMiner
small_miner = record {
  id = 2;
  name = "Small";
  base_hash_rate = pos 30;
  price = pos 100;
  slot_size = 1;
  image_url = none;
  is_active = true;
  show_in_shop = true;
  in_faucet = false;
  in_shortlink = false;
}
