-- ===== src/Checkin/State.antt =====
-- The rows of `model DailyCheckin` (server/prisma/schema.prisma). A date is the number of its day, of which
-- `getBrazilCheckinDateKey` gives the key, counted from a day long past; `addDaysToBrazilDateKey` adds to
-- the number (server/utils/checkinDate.js).
use support_block_miner.Base.{true, false, ◌==◌, ◌&&◌, ℕ, Bool, Option, String}

pub data CheckinStatus : Type 0 where
  checkin_pending checkin_confirmed checkin_failed : CheckinStatus

abbrev pub is_checkin_pending : CheckinStatus → Bool
is_checkin_pending checkin_pending = true
is_checkin_pending _ = false

abbrev pub is_confirmed : CheckinStatus → Bool
is_confirmed checkin_confirmed = true
is_confirmed _ = false

-- An amount is an integer count of wei.
pub record DailyCheckin : Type 0 where
  pub id : ℕ
  pub user_id : ℕ
  pub checkin_date : ℕ
  pub created_at : ℕ
  pub confirmed_at : Option ℕ
  pub tx_hash : String
  pub status : CheckinStatus
  pub amount : ℕ
  pub chain_id : ℕ

-- `where: { userId_checkinDate: { userId, checkinDate } }`
abbrev pub is_row_of : ℕ → ℕ → DailyCheckin → Bool
is_row_of u day r = r.user_id == u && r.checkin_date == day
