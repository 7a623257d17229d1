-- ===== src/Shortlinks/State.antt =====
-- The rows of `model ShortlinkCompletion` and `model ShortlinkReward` (server/prisma/schema.prisma).
use support_block_miner.Base.Table.{Table, IsTable}
use support_block_miner.Shop.Purchase.{CatalogMiner}
use support_block_miner.Database.{UserInventory}
use support_block_miner.Base.{ℕ, Bool, List, Option, String}
use support_block_miner.Base.Int.{ℤ}

pub record ShortlinkCompletion : Type 0 where
  pub user_id : ℕ
  pub current_step : ℤ
  pub daily_runs : ℕ
  pub session_token : Option String
  pub step_started_at : Option ℕ
  pub completed_at : Option ℕ
  pub reset_at : Option ℕ

-- `is_internal` says whether `shortlinkType` is the internal one.
pub record ShortlinkReward : Type 0 where
  pub is_internal : Bool
  pub is_active : Bool
  pub miner_id : Option ℕ

-- `incident_log` counts the rows of the audit log that `createAuditLog` writes.
pub record Links : Type 0 where
  pub completions : List ShortlinkCompletion
  pub rewards : List ShortlinkReward
  pub catalog : List CatalogMiner
  pub inventory : List UserInventory
  pub incident_log : ℕ

pub record LinksDb : Type 0 where
  pub completions : Table ShortlinkCompletion
  pub rewards : Table ShortlinkReward
  pub catalog : Table CatalogMiner
  pub inventory : Table UserInventory

pub record IsLinksDb (db : LinksDb) : Type 0 where
  pub completions : IsTable db.completions
  pub rewards : IsTable db.rewards
  pub catalog : IsTable db.catalog
  pub inventory : IsTable db.inventory
