-- ===== src/Watch/State.antt =====
-- The rows that the handlers of watching read and change (server/prisma/schema.prisma).
use support_block_miner.Base.Table.{Table, IsTable}
use support_block_miner.Database.{UserInventory}
use support_block_miner.Base.{ℕ, Option, String, List, Bool}
use support_block_miner.Base.Int.{ℤ}

-- The columns of `model User` for watching; a time is a count of milliseconds.
pub record Viewer : Type 0 where
  pub id : ℕ
  pub yt_seconds_balance : ℕ
  pub auto_mining_seconds_balance : ℕ
  pub last_heartbeat_at : Option ℕ

-- `model AutoMiningReward`
pub record AutoMiningReward : Type 0 where
  pub id : ℕ
  pub name : String
  pub gpu_hash_rate : ℤ
  pub image_url : Option String
  pub is_active : Bool

-- `model AutoMiningGpu`
pub record AutoMiningGpu : Type 0 where
  pub id : ℕ
  pub user_id : ℕ
  pub reward_id : ℕ
  pub gpu_hash_rate : ℤ
  pub is_available : Bool
  pub is_claimed : Bool
  pub released_at : ℕ
  pub claimed_at : Option ℕ
  pub expires_at : Option ℕ

-- `model YoutubeWatchPower` and `model YoutubeWatchHistory`. A hash rate is a number of H/s.
pub record YoutubeWatch : Type 0 where
  pub user_id : ℕ
  pub source_video_id : String
  pub hash_rate : ℕ
  pub claimed_at : ℕ
  pub expires_at : ℕ

-- The logs are not read again, and left out.
pub record Watch : Type 0 where
  pub viewers : List Viewer
  pub rewards : List AutoMiningReward
  pub gpus : List AutoMiningGpu
  pub powers : List YoutubeWatch
  pub history : List YoutubeWatch
  pub inventory : List UserInventory

pub record WatchDb : Type 0 where
  pub viewers : Table Viewer
  pub rewards : Table AutoMiningReward
  pub gpus : Table AutoMiningGpu
  pub powers : Table YoutubeWatch
  pub history : Table YoutubeWatch
  pub inventory : Table UserInventory

pub record IsWatchDb (db : WatchDb) : Type 0 where
  pub viewers : IsTable db.viewers
  pub rewards : IsTable db.rewards
  pub gpus : IsTable db.gpus
  pub powers : IsTable db.powers
  pub history : IsTable db.history
  pub inventory : IsTable db.inventory
