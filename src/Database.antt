-- ===== src/Database.antt =====
-- The rows of the tables (server/prisma/schema.prisma), with the columns that the modelled handlers
-- read or write. An id is a number, a time a count of milliseconds, a `Decimal(20, 8)` an integer
-- count of 10⁻⁸. A status or a type is a constructor for each text that the sources compare with.
use support_block_miner.Base.{true, false, ℕ, Bool, Option, String}
use support_block_miner.Base.Int.{ℤ}

pub data TransactionType : Type 0 where
  deposit withdrawal other_type : TransactionType

pub data Status : Type 0 where
  pending approved pending_verification completed failed : Status

abbrev pub is_deposit : TransactionType → Bool
is_deposit deposit = true
is_deposit _ = false

abbrev pub is_withdrawal : TransactionType → Bool
is_withdrawal withdrawal = true
is_withdrawal _ = false

abbrev pub is_pending : Status → Bool
is_pending pending = true
is_pending _ = false

abbrev pub is_approved : Status → Bool
is_approved approved = true
is_approved _ = false

abbrev pub is_pending_verification : Status → Bool
is_pending_verification pending_verification = true
is_pending_verification _ = false

abbrev pub is_completed : Status → Bool
is_completed completed = true
is_completed _ = false

abbrev pub is_failed : Status → Bool
is_failed failed = true
is_failed _ = false

-- Why the verification of a deposit failed: the `error` of the JSON text in `rawTx`.
pub data FailReason : Type 0 where
  verification_timeout tx_reverted wrong_destination wrong_chain amount_too_small : FailReason
  duplicate_txhash : ℕ → FailReason

-- `model User`
pub record User : Type 0 where
  pub id : ℕ
  pub pol_balance : ℤ
  pub usdc_balance : ℤ
  pub wallet_address : Option String

-- `model Transaction`
pub record Transaction : Type 0 where
  pub id : ℕ
  pub user_id : ℕ
  pub type : TransactionType
  pub amount : ℤ
  pub address : Option String
  pub tx_hash : Option String
  pub from_address : Option String
  pub status : Status
  pub funds_reserved : Bool
  pub verify_attempts : ℕ
  pub completed_at : Option ℕ
  pub fail_reason : Option FailReason

-- `model UserMiner`: a machine that is installed. A hash rate is only copied and compared with 0.
pub record UserMiner : Type 0 where
  pub id : ℕ
  pub user_id : ℕ
  pub miner_id : Option ℕ
  pub slot_index : ℕ
  pub level : ℕ
  pub hash_rate : ℤ
  pub slot_size : ℕ
  pub image_url : Option String
  pub is_active : Bool

-- `model UserInventory`: a machine that is not installed.
pub record UserInventory : Type 0 where
  pub id : ℕ
  pub user_id : ℕ
  pub miner_id : Option ℕ
  pub miner_name : String
  pub level : ℕ
  pub hash_rate : ℤ
  pub slot_size : ℕ
  pub image_url : Option String
  pub acquired_at : ℕ
  pub expires_at : Option ℕ

-- `model UserRoom`
pub record UserRoom : Type 0 where
  pub id : ℕ
  pub user_id : ℕ
  pub room_number : ℕ
  pub price_paid : ℤ

-- `model UserRack`
pub record UserRack : Type 0 where
  pub id : ℕ
  pub user_id : ℕ
  pub room_id : ℕ
  pub position : ℕ
  pub user_miner_id : Option ℕ
  pub blocked_by_miner_id : Option ℕ
  pub installed_at : Option ℕ
