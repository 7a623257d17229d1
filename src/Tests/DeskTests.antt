-- ===== src/Tests/DeskTests.antt =====
-- Runs of the ticket handlers, and their theorems at those inputs.
use support_block_miner.Tickets.State.{DepositTicket, Desk, DeskDb, IsDeskDb, ticket_analyzing}
use support_block_miner.Tickets.Resolve.{admin_approve_ticket, admin_reject_ticket, credit_ticket}
use support_block_miner.Tickets.Runs.{
  approves, rejects, Reach, start, then_step, reach-Accounted, reach-IsLimited,
}
use support_block_miner.Tickets.Credit.{Accounted}
use support_block_miner.Tickets.Limit.{open_tickets}
use support_block_miner.Database.{User}
use support_block_miner.Tests.Stores.{counts, wallet_db, wallet_db-IsWalletDb}
use support_block_miner.Base.Table.{memory, memory-IsTable}
use support_block_miner.Base.Text.{codes}
use support_block_miner.Base.{none, some, true, [], ◌∷◌, refl, ◌≤◌, ◌≡◌, arith, ℕ, List, String}
use support_block_miner.Base.Int.{pos}
use support_block_miner.Base.Http.{accepted}

abbrev desk_db : DeskDb
desk_db = record { tickets = memory; wallet = wallet_db; notices = memory }

desk_db-IsDeskDb : IsDeskDb desk_db
desk_db-IsDeskDb = record {
  tickets = memory-IsTable;
  wallet = wallet_db-IsWalletDb;
  notices = memory-IsTable;
}

abbrev claimant : User
claimant = record { id = 7; pol_balance = pos 600; usdc_balance = pos 0; wallet_address = none }

abbrev ticket : DepositTicket
ticket = record {
  id = 1;
  user_id = 7;
  wallet_address = codes "0x00000000000000000000000000000000000000aa";
  tx_hash = none;
  amount_claimed = none;
  description = none;
  status = ticket_analyzing;
  onchain_data_json = none;
  admin_action = none;
  admin_note = none;
  credited_amount = none;
  resolved_at = none;
}

abbrev desk : Desk
desk = record {
  tickets = ticket ∷ [];
  wallet = record { users = claimant ∷ []; transactions = []; engine = none };
  notices = [];
}

abbrev address_of : List ℕ → String
address_of cs = "0x"

-- A ticket that is rejected, and then approved all the same.
abbrev turned_down : Desk
turned_down = (admin_reject_ticket counts desk_db address_of 1000 1 none desk).1

abbrev paid_desk : Desk
paid_desk =
    (admin_approve_ticket counts desk_db address_of 9 2000 1 (some (pos 250)) none turned_down).1

approved_late :
    (admin_approve_ticket counts desk_db address_of 9 2000 1
      (some (pos 250))
      none
      (admin_reject_ticket counts desk_db address_of 1000 1 none desk).1).0
    ≡ accepted tt
unfolding admin_approve_ticket credit_ticket admin_reject_ticket
approved_late = refl

abbrev late_run : Reach counts desk_db (λ s. true) address_of (λ t. "") desk paid_desk
late_run =
    then_step desk turned_down paid_desk
      (then_step desk desk turned_down (start desk) (rejects 1000 1 none desk))
      (approves 9 2000 1 (some (pos 250)) none turned_down)

reach-Accounted_example : Accounted counts desk_db desk_db-IsDeskDb desk paid_desk
reach-Accounted_example =
    reach-Accounted counts desk_db (λ s. true) address_of (λ t. "") desk_db-IsDeskDb desk paid_desk
      late_run ((tt, tt), (tt, tt))

desk-IsLimited : (u : ℕ) → open_tickets u desk ≤ 3
desk-IsLimited u = ground arith

reach-IsLimited_example : open_tickets 7 paid_desk ≤ 3
reach-IsLimited_example =
    reach-IsLimited counts desk_db (λ s. true) address_of (λ t. "") desk_db-IsDeskDb desk paid_desk
      late_run ((tt, tt), (tt, tt)) desk-IsLimited 7
