-- ===== src/Wallet/Deposits.antt =====
-- Deposits: `createDepositRequest` (server/models/walletModel.js) and the verification of a pending
-- deposit (server/services/depositVerifier.js). The blockchain is read through ethers, which is not part of
-- the repository: what its calls answer is an argument. Notifications and socket messages change no
-- state of the wallet.
use support_block_miner.Base.{
  none, some, true, false, [], ◌∷◌, ◌==◌, ◌+◌, ◌&&◌, if◌then◌else◌, ℕ, Option, String, Bool, not,
  List, is_some, ltb, take,
}
use support_block_miner.Base.Int.{pos, ℤ, ltb_ℤ, scale}
use support_block_miner.Base.Http.{ok, throw, Result}
use support_block_miner.Wallet.State.{WalletDb, Wallet, add_to_balance}
use support_block_miner.Engine.Numbers.{Numbers}
use support_block_miner.Database.{
  Transaction, FailReason, failed, completed, Status, is_completed, duplicate_txhash, deposit,
  is_deposit, wrong_destination, verification_timeout, is_pending_verification, wrong_chain,
  tx_reverted, amount_too_small,
}
use support_block_miner.Base.Text.{same_text}

-- What a call of the provider answers: it throws, it gives null, or it gives a value.
pub data Answer (A : Type 0) : Type 0 where
  rpc_error : Answer A
  missing : Answer A
  found : A → Answer A

-- A transaction on the chain: the addresses in lower case, and the value in wei.
pub record ChainTx : Type 0 where
  pub to : Option String
  pub sender : Option String
  pub chain_id : ℕ
  pub value : ℕ

-- The provider, by transaction hash; a receipt says whether the transaction succeeded (`status` 1).
pub record Chain : Type 0 where
  pub get_transaction_receipt : Option String → Answer Bool
  pub get_transaction : Option String → Answer ChainTx

abbrev pub max_attempts : ℕ
max_attempts = 20

-- 0.0001 POL in wei
abbrev pub smallest_deposit : ℕ
smallest_deposit = 100_000_000_000_000

abbrev pub polygon_chain : ℕ
polygon_chain = 137

module _ (db : WalletDb) where
  -- `transaction.update({ where: { id } })`
  abbrev pub change_transaction : ℕ → (Transaction → Transaction) → Wallet → Wallet
  change_transaction id f w = record w {
    transactions = db.transactions.update (λ r. r.id == id) f w.transactions;
  }

  abbrev pub count_attempt : ℕ → Transaction → Transaction
  count_attempt attempts r = record r { verify_attempts = attempts }

  abbrev pub mark_failed : ℕ → FailReason → Transaction → Transaction
  mark_failed attempts reason r = record r {
    status = failed;
    verify_attempts = attempts;
    fail_reason = some reason;
  }

  -- The search for another deposit that was credited for the hash of `t`.
  abbrev pub is_other_credit : Transaction → Transaction → Bool
  is_other_credit t r =
      same_text r.tx_hash t.tx_hash
      && is_completed r.status
      && is_deposit r.type
      && not (r.id == t.id)

  -- The checks of the transaction on the chain, in order; none where it may be credited.
  abbrev pub reject_reason : Option String → ChainTx → Option FailReason
  reject_reason address c =
      if not (is_some address && same_text c.to address)
      then some wrong_destination
      else if not (c.chain_id == polygon_chain)
      then some wrong_chain
      else if ltb c.value smallest_deposit
      then some amount_too_small
      else none

  abbrev pub complete : ChainTx → ℕ → ℕ → Transaction → Transaction
  complete c now attempts r = record r {
    status = completed;
    amount = db.amount_of_wei c.value;
    from_address = c.sender;
    completed_at = some now;
    verify_attempts = attempts;
  }

module _ (n : Numbers ℤ) (db : WalletDb) where
  -- The `$transaction` that credits a deposit. Without its user the update throws, the `catch` of the
  -- caller counts the attempt, and nothing else changes.
  unfoldable pub credit_deposit : ChainTx → ℕ → ℕ → Transaction → Wallet → Wallet
  credit_deposit c now attempts t w = elim (db.users.find (λ r. r.id == t.user_id) w.users) [
    | none ↦ change_transaction db t.id (count_attempt db attempts) w
    | some _ ↦
        add_to_balance n db t.user_id (db.amount_of_wei c.value)
          (change_transaction db t.id (complete db c now attempts) w)
  ]

  -- From the transaction on the chain on.
  unfoldable pub judge_deposit : Option String → ChainTx → ℕ → ℕ → Transaction → Wallet → Wallet
  unfolding credit_deposit
  judge_deposit address c now attempts t w = elim (reject_reason db address c) [
    | some reason ↦ change_transaction db t.id (mark_failed db attempts reason) w
    | none ↦ elim (db.transactions.find (is_other_credit db t) w.transactions) [
      | some other ↦
          change_transaction db t.id (mark_failed db attempts (duplicate_txhash other.id)) w
      | none ↦ credit_deposit c now attempts t w
    ]
  ]

  -- `verifyOnePendingDeposit(tx)`; `address` is `DEPOSIT_WALLET_ADDRESS` in lower case, none if empty.
  unfoldable pub verify_one_pending_deposit :
      Chain → Option String → ℕ → Transaction → Wallet → Wallet
  unfolding judge_deposit
  verify_one_pending_deposit chain address now t w =
      let attempts = t.verify_attempts + 1 in
      if ltb max_attempts attempts
      then change_transaction db t.id (mark_failed db attempts verification_timeout) w
      else elim (chain.get_transaction_receipt t.tx_hash) [
        | rpc_error ↦ change_transaction db t.id (count_attempt db attempts) w
        | missing ↦ change_transaction db t.id (count_attempt db attempts) w
        | found false ↦ change_transaction db t.id (mark_failed db attempts tx_reverted) w
        | found true ↦ elim (chain.get_transaction t.tx_hash) [
          | rpc_error ↦ change_transaction db t.id (count_attempt db attempts) w
          | missing ↦ change_transaction db t.id (count_attempt db attempts) w
          | found c ↦ judge_deposit address c now attempts t w
        ]
      ]

  verify_each : Chain → Option String → ℕ → List Transaction → Wallet → Wallet
  verify_each chain address now [] w = w
  verify_each chain address now (t ∷ ts) w =
      verify_each chain address now ts (verify_one_pending_deposit chain address now t w)

  -- `runDepositVerifier()`: the fifty oldest pending deposits, with the verifications one after the
  -- other.
  unfoldable pub run_deposit_verifier : Chain → Option String → ℕ → Wallet → Wallet
  unfolding verify_each
  run_deposit_verifier chain address now w =
      verify_each chain address now
        (take 50 (
          db.transactions.find_many (λ t. is_deposit t.type && is_pending_verification t.status)
            w.transactions))
        w

  abbrev pub new_deposit : ℕ → ℕ → ℤ → String → Status → Option ℕ → Transaction
  new_deposit id u amount hash status completed_at = record {
    id = id;
    user_id = u;
    type = deposit;
    amount = amount;
    address = none;
    tx_hash = some hash;
    from_address = none;
    status = status;
    funds_reserved = false;
    verify_attempts = 0;
    completed_at = completed_at;
    fail_reason = none;
  }

  -- What `createDepositRequest` reads of the chain: the transaction, whether its value, in wei, is at least
  -- 99.9 percent of the claimed amount, in 10⁻⁸ POL, and its receipt.
  abbrev pub check_deposit : Chain → String → ℤ → String → Option String
  check_deposit chain address amount hash = elim (chain.get_transaction (some hash)) [
    | rpc_error ↦ some "Invalid transaction hash or network error."
    | missing ↦ some "Transaction not found on the network. Make sure it's on Polygon Mainnet."
    | found c ↦
        if not (same_text c.to (some address))
        then some "Transaction was not sent to the correct deposit address."
        else if not (c.chain_id == polygon_chain)
        then some "Transaction must be on Polygon Mainnet (Chain ID 137)."
        else if ltb_ℤ (scale (pos c.value) 1000) (scale amount 9_990_000_000_000)
        then some "Transaction amount is less than requested amount."
        else elim (chain.get_transaction_receipt (some hash)) [
          | found true ↦ none
          | _ ↦ some "Transaction is not confirmed yet or has failed on-chain."
        ]
  ]

  -- `createDepositRequest(userId, amount, txHash)`, with the chain reached (not under test); the
  -- address is in lower case. Without its user the update throws and the row is not kept.
  unfoldable pub create_deposit_request :
      Chain → Option String → ℕ → ℕ → ℕ → ℤ → String → Wallet → Result Transaction × Wallet
  create_deposit_request chain address id now u amount hash w =
      elim (db.transactions.find (λ t. same_text t.tx_hash (some hash) && is_deposit t.type)
        w.transactions) [
          | some _ ↦ (throw "Transaction hash already used for deposit.", w)
          | none ↦ elim address [
            | none ↦ (throw "Deposit wallet address not configured on server.", w)
            | some a ↦ elim (check_deposit chain a amount hash) [
              | some message ↦ (throw message, w)
              | none ↦ elim (db.users.find (λ r. r.id == u) w.users) [
                | none ↦ (throw "Record to update not found.", w)
                | some _ ↦
                    let t = new_deposit id u amount hash completed (some now) in
                    (
                      ok t,
                      add_to_balance n db u amount
                          (record w { transactions = db.transactions.create t w.transactions }),
                    )
              ]
            ]
          ]
        ]
