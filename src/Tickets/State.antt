-- ===== src/Tickets/State.antt =====
-- The rows of `model DepositTicket` (server/prisma/schema.prisma), and what the handlers of
-- server/controllers/depositTicketController.js read and change.
use support_block_miner.Wallet.State.{Wallet, WalletDb, IsWalletDb}
use support_block_miner.Base.{true, false, ℕ, Bool, Option, String, List}
use support_block_miner.Base.Int.{ℤ}
use support_block_miner.Base.Table.{Table, IsTable}

-- `status`
pub data TicketStatus : Type 0 where
  ticket_open ticket_analyzing ticket_approved ticket_rejected ticket_credited : TicketStatus

-- `status: { in: ["open", "analyzing"] }`
abbrev pub is_unresolved : TicketStatus → Bool
is_unresolved ticket_open = true
is_unresolved ticket_analyzing = true
is_unresolved _ = false

-- `ticket.status === "approved" || ticket.status === "credited"`
abbrev pub is_paid : TicketStatus → Bool
is_paid ticket_approved = true
is_paid ticket_credited = true
is_paid _ = false

abbrev pub is_rejected : TicketStatus → Bool
is_rejected ticket_rejected = true
is_rejected _ = false

-- `adminAction`
pub data AdminAction : Type 0 where
  no_action credit_applied : AdminAction

-- An address and a description are lists of the code units of a text.
pub record DepositTicket : Type 0 where
  pub id : ℕ
  pub user_id : ℕ
  pub wallet_address : List ℕ
  pub tx_hash : Option String
  pub amount_claimed : Option String
  pub description : Option (List ℕ)
  pub status : TicketStatus
  pub onchain_data_json : Option String
  pub admin_action : Option AdminAction
  pub admin_note : Option String
  pub credited_amount : Option ℤ
  pub resolved_at : Option ℕ

pub record Notice : Type 0 where
  pub user_id : ℕ
  pub title : String

pub record Desk : Type 0 where
  pub tickets : List DepositTicket
  pub wallet : Wallet
  pub notices : List Notice

pub record DeskDb : Type 0 where
  pub tickets : Table DepositTicket
  pub wallet : WalletDb
  pub notices : Table Notice

pub record IsDeskDb (db : DeskDb) : Type 0 where
  pub tickets : IsTable db.tickets
  pub wallet : IsWalletDb db.wallet
  pub notices : IsTable db.notices
