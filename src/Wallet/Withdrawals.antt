-- ===== src/Wallet/Withdrawals.antt =====
-- Withdrawals: their creation and their end in server/models/walletModel.js, the handler of
-- server/controllers/walletController.js, and the job of server/cron/withdrawalsCron.js. A
-- `$transaction` that throws leaves the tables as they were.

use text.Mathlib.Text.{◌==◌ as str_eq}
use support_block_miner.Base.{
  none, some, true, [], ◌∷◌, ◌&&◌, ◌||◌, if◌then◌else◌, ℕ, Option, Bool, ◌==◌, String, List,
  is_some, not, length,
}
use support_block_miner.Base.Http.{accepted, rejected, ok, throw, Result, Response}
use support_block_miner.Database.{
  Transaction, is_withdrawal, withdrawal, Status, is_pending, pending, is_failed, is_completed,
  failed, completed, is_approved,
}
use support_block_miner.Engine.Numbers.{Numbers}
use support_block_miner.Base.Int.{ℤ, ltb_ℤ, neg}
use support_block_miner.Wallet.State.{WalletDb, Wallet, pol, add_to_balance}
use support_block_miner.Base.Text.{is_hex_text, codes}

abbrev pub is_pending_withdrawal_of : ℕ → Transaction → Bool
is_pending_withdrawal_of u t = t.user_id == u && is_withdrawal t.type && is_pending t.status

-- The body of a request: a missing or falsy field is none, and an amount that `parseFloat` cannot
-- read is `some none`.
pub record WithdrawalBody : Type 0 where
  pub amount : Option (Option ℤ)
  pub address : Option String

module _ (n : Numbers ℤ) (db : WalletDb) where
  abbrev pub new_withdrawal : ℕ → ℕ → ℤ → String → Transaction
  new_withdrawal id u amount address = record {
    id = id;
    user_id = u;
    type = withdrawal;
    amount = amount;
    address = some address;
    tx_hash = none;
    from_address = none;
    status = pending;
    funds_reserved = true;
    verify_attempts = 0;
    completed_at = none;
    fail_reason = none;
  }

  -- `createWithdrawal(userId, amount, address)`; `id` is the key that the database gives the row.
  unfoldable pub create_withdrawal : ℕ → ℕ → ℤ → String → Wallet → Result Transaction × Wallet
  create_withdrawal id u amount address w =
      elim (db.transactions.find (is_pending_withdrawal_of u) w.transactions) [
        | some _ ↦ (throw "Pending withdrawal exists", w)
        | none ↦ elim (db.users.find (λ r. r.id == u) w.users) [
          | none ↦ (throw "Cannot read properties of null", w)
          | some user ↦
              if ltb_ℤ user.pol_balance amount
              then (throw "Insufficient balance", w)
              else let t = new_withdrawal id u amount address in
                let paid = add_to_balance n db u (neg amount) w in
                (ok t, record paid { transactions = db.transactions.create t w.transactions })
        ]
      ]

  -- Whether the change of a status gives reserved funds back.
  abbrev pub is_refund : Status → Transaction → Bool
  is_refund status t =
      is_withdrawal t.type
      && is_failed status
      && not (is_failed t.status)
      && not (is_completed t.status)
      && t.funds_reserved

  abbrev pub with_status : Status → Option String → ℕ → Transaction → Transaction
  with_status status tx_hash now t = record t {
    status = status;
    tx_hash = elim tx_hash [ some h ↦ some h | none ↦ t.tx_hash ];
    completed_at = if is_completed status then some now else t.completed_at;
  }

  -- `updateTransactionStatus(transactionId, status, txHash)`; a refund to a user who is not there
  -- throws, and undoes the change of the status.
  unfoldable pub update_transaction_status :
      ℕ → Status → Option String → ℕ → Wallet → Result Bool × Wallet
  update_transaction_status id status tx_hash now w =
      elim (db.transactions.find (λ t. t.id == id) w.transactions) [
        | none ↦ (ok true, w)
        | some t ↦
            let changed = record w {
              transactions =
                  db.transactions.update (λ r. r.id == id) (with_status status tx_hash now)
                    w.transactions;
            } in
            if is_refund status t
            then elim (db.users.find (λ r. r.id == t.user_id) w.users) [
              | none ↦ (throw "Record to update not found.", w)
              | some _ ↦ (ok true, add_to_balance n db t.user_id t.amount changed)
            ]
            else (ok true, changed)
      ]

  unfoldable pub fail_each : ℕ → List Transaction → Wallet → Wallet
  fail_each now [] w = w
  fail_each now (t ∷ ts) w = fail_each now ts (update_transaction_status t.id failed none now w).1

  -- `failAllPendingWithdrawals()`: the number of withdrawals found, and the wallet. An error of one
  -- is passed over.
  unfoldable pub fail_all_pending_withdrawals : ℕ → Wallet → ℕ × Wallet
  unfolding fail_each
  fail_all_pending_withdrawals now w =
      let found =
        db.transactions.find_many (λ t. is_withdrawal t.type && is_pending t.status)
          w.transactions in
      (length found, fail_each now found w)

  -- `hasPendingWithdrawal(userId)`
  unfoldable pub has_pending_withdrawal : ℕ → Wallet → Bool
  has_pending_withdrawal u w =
      is_some (db.transactions.find (is_pending_withdrawal_of u) w.transactions)

  -- One round of `processPendingWithdrawals`: `sent` is what `sendTransaction` did, the hash of the
  -- transfer or none where it threw. The change to completed gives nothing back and does not throw.
  unfoldable pub settle_withdrawal : Option String → ℕ → Transaction → Wallet → Result Bool × Wallet
  settle_withdrawal (some hash) now t w = update_transaction_status t.id completed (some hash) now w
  settle_withdrawal none now t w = update_transaction_status t.id failed none now w

  -- The loop; `send` stands for the wallet of ethers, which is not part of the repository. A change to
  -- failed that throws ends it.
  unfoldable pub process_withdrawals :
      (Transaction → Option String) → ℕ → List Transaction → Wallet → Wallet
  process_withdrawals send now [] w = w
  process_withdrawals send now (t ∷ ts) w =
      let settled = settle_withdrawal (send t) now t w in
      elim settled.0 [ ok _ ↦ process_withdrawals send now ts settled.1 | throw _ ↦ settled.1 ]

  -- `getPendingWithdrawals()`
  unfoldable pub get_pending_withdrawals : Wallet → List Transaction
  get_pending_withdrawals w =
      db.transactions.find_many
        (λ t. is_withdrawal t.type && (is_pending t.status || is_approved t.status)) w.transactions

  -- `processPendingWithdrawals()`, where a valid private key is set or not.
  unfoldable pub process_pending_withdrawals :
      Bool → (Transaction → Option String) → ℕ → Wallet → Wallet
  process_pending_withdrawals has_key send now w =
      if has_key then process_withdrawals send now (get_pending_withdrawals w) w else w

  abbrev pub withdraw_min_pol : ℤ
  withdraw_min_pol = pol 10

  abbrev pub answer_withdrawal : Result Transaction × Wallet → Response Transaction × Wallet
  answer_withdrawal (ok t, w) = (accepted t, w)
  answer_withdrawal (throw message, w) =
      (rejected (if str_eq message "Pending withdrawal exists" then 409 else 400) message, w)

  abbrev pub withdraw_amount : ℕ → ℕ → Option ℤ → String → Wallet → Response Transaction × Wallet
  withdraw_amount id u none address w = (rejected 400 "Minimum withdrawal is 10 POL.", w)
  withdraw_amount id u (some amount) address w =
      if ltb_ℤ amount withdraw_min_pol
      then (rejected 400 "Minimum withdrawal is 10 POL.", w)
      else answer_withdrawal (create_withdrawal id u amount address w)

  -- `requestWithdrawal(req, res)`
  unfoldable pub request_withdrawal :
      ℕ → ℕ → WithdrawalBody → Wallet → Response Transaction × Wallet
  request_withdrawal id u body w = elim body.amount [
    | none ↦ (rejected 400 "Amount and address are required.", w)
    | some parsed ↦ elim body.address [
      | none ↦ (rejected 400 "Amount and address are required.", w)
      | some address ↦
          if is_hex_text 40 (codes address)
          then withdraw_amount id u parsed address w
          else (rejected 400 "Invalid wallet address format.", w)
    ]
  ]
