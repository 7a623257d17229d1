-- ===== src/Tickets/Resolve.antt =====
-- `adminGetTicket`, `adminApproveTicket` and `adminRejectTicket`
-- (server/controllers/depositTicketController.js).
use support_block_miner.Tickets.State.{
  DepositTicket, Desk, DeskDb, ticket_analyzing, ticket_credited, ticket_rejected, is_unresolved,
  is_paid, is_rejected, no_action, credit_applied,
}
use support_block_miner.Base.Http.{Response, accepted, rejected}
use support_block_miner.Wallet.State.{add_to_balance, Wallet}
use support_block_miner.Database.{Transaction, deposit, completed}
use support_block_miner.Base.{none, some, false, ◌==◌, ◌||◌, if◌then◌else◌, ℕ, List, String, Option}
use support_block_miner.Base.Int.{pos, ℤ, leb_ℤ}
use support_block_miner.Engine.Numbers.{Numbers}

-- `address_text` gives the text of an address.
module _ (n : Numbers ℤ) (db : DeskDb) (address_text : List ℕ → String) where
  abbrev pub change_ticket : ℕ → (DepositTicket → DepositTicket) → Desk → Desk
  change_ticket id f d = record d { tickets = db.tickets.update (λ t. t.id == id) f d.tickets }

  -- `adminGetTicket(req, res)`; `analyze` is `analyzeOnChain` and the JSON text of its result.
  unfoldable pub admin_get_ticket :
      (DepositTicket → String) → ℕ → Desk → Response DepositTicket × Desk
  admin_get_ticket analyze id d = elim (db.tickets.find (λ t. t.id == id) d.tickets) [
    | none ↦ (rejected 404 "Ticket não encontrado.", d)
    | some t ↦
        if is_unresolved t.status
        then (
          accepted t,
          change_ticket t.id
              (λ r. record r { status = ticket_analyzing; onchain_data_json = some (analyze t) }) d,
        )
        else (accepted t, d)
  ]

  abbrev pub ticket_deposit : ℕ → ℕ → ℤ → DepositTicket → Transaction
  ticket_deposit key now amount t = record {
    id = key;
    user_id = t.user_id;
    type = deposit;
    amount = amount;
    address = none;
    tx_hash = t.tx_hash;
    from_address = some (address_text t.wallet_address);
    status = completed;
    funds_reserved = false;
    verify_attempts = 0;
    completed_at = some now;
    fail_reason = none;
  }

  abbrev pub mark_credited : ℕ → ℤ → Option String → DepositTicket → DepositTicket
  mark_credited now amount remark t = record t {
    status = ticket_credited;
    admin_action = some credit_applied;
    admin_note = remark;
    credited_amount = some amount;
    resolved_at = some now;
  }

  abbrev pub mark_rejected : ℕ → Option String → DepositTicket → DepositTicket
  mark_rejected now remark t = record t {
    status = ticket_rejected;
    admin_action = some no_action;
    admin_note = remark;
    resolved_at = some now;
  }

  -- The balance, in the table and in memory, and the row of the deposit.
  unfoldable pub credit_wallet : ℕ → ℕ → ℤ → DepositTicket → Wallet → Wallet
  credit_wallet key now amount t w =
      let paid = add_to_balance n db.wallet t.user_id amount w in
      record paid {
        transactions =
            db.wallet.transactions.create (ticket_deposit key now amount t) w.transactions;
      }

  -- The `$transaction` and the change in memory; it throws without the user.
  unfoldable pub credit_ticket :
      ℕ → ℕ → ℤ → Option String → DepositTicket → Desk → Response (Unit {0}) × Desk
  unfolding credit_wallet
  credit_ticket key now amount remark t d =
      elim (db.wallet.users.find (λ r. r.id == t.user_id) d.wallet.users) [
        | none ↦ (rejected 500 "Erro ao aprovar ticket.", d)
        | some _ ↦ (
          accepted tt,
          record {
            tickets =
                db.tickets.update (λ r. r.id == t.id) (mark_credited now amount remark) d.tickets;
            wallet = credit_wallet key now amount t d.wallet;
            notices =
                db.notices.create (record { user_id = t.user_id; title = "Depósito Creditado" })
                  d.notices;
          },
        )
      ]

  -- `adminApproveTicket(req, res)`; the amount is none where it is missing or no number.
  unfoldable pub admin_approve_ticket :
      ℕ → ℕ → ℕ → Option ℤ → Option String → Desk → Response (Unit {0}) × Desk
  unfolding credit_ticket
  admin_approve_ticket key now id none remark d = (rejected 400 "Valor inválido para crédito.", d)
  admin_approve_ticket key now id (some amount) remark d =
      if leb_ℤ amount (pos 0)
      then (rejected 400 "Valor inválido para crédito.", d)
      else elim (db.tickets.find (λ t. t.id == id) d.tickets) [
        | none ↦ (rejected 404 "Ticket não encontrado.", d)
        | some t ↦
            if is_paid t.status
            then (rejected 409 "Ticket já resolvido.", d)
            else credit_ticket key now amount remark t d
      ]

  -- `adminRejectTicket(req, res)`
  unfoldable pub admin_reject_ticket : ℕ → ℕ → Option String → Desk → Response (Unit {0}) × Desk
  admin_reject_ticket now id remark d = elim (db.tickets.find (λ t. t.id == id) d.tickets) [
    | none ↦ (rejected 404 "Ticket não encontrado.", d)
    | some t ↦
        if is_paid t.status || is_rejected t.status
        then (rejected 409 "Ticket já resolvido.", d)
        else (
          accepted tt,
          record d {
            tickets = db.tickets.update (λ r. r.id == t.id) (mark_rejected now remark) d.tickets;
            notices =
                db.notices.create
                  (record { user_id = t.user_id; title = "Ticket de Depósito Rejeitado" })
                  d.notices;
          },
        )
  ]
