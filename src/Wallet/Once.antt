-- ===== src/Wallet/Once.antt =====
-- That no transaction hash is credited twice (server/services/depositVerifier.js,
-- server/models/walletModel.js).
use support_block_miner.Base.{
  none, some, true, false, inl, inr, refl, ◌==◌, ◌+◌, ◌≡◌, ◌≢◌, arith, ℕ, Option, String,
  Bool-cases, ◌∙◌, Option-cases, Bool, ltb, ap, All-imp,
}
use support_block_miner.Base.Int.{pos, ◌+ℤ◌, ◌≤ℤ◌, ℤ, int_laws, pos_part, neg_part}
use support_block_miner.Engine.Numbers.{Numbers}
use support_block_miner.Wallet.State.{WalletDb, IsWalletDb, Wallet}
use support_block_miner.Wallet.Deposits.{
  rpc_error, missing, found, verify_one_pending_deposit, ChainTx, Chain, is_other_credit,
  mark_failed, change_transaction, judge_deposit, Answer, count_attempt, complete, reject_reason,
  max_attempts, credit_deposit,
}
use support_block_miner.Database.{
  Transaction, FailReason, duplicate_txhash, verification_timeout, tx_reverted,
}
use support_block_miner.Wallet.Credits.{credited, credits}
use support_block_miner.Base.Table.{HasUnique, sum_by-update_found, sum_by-find_single}
use support_block_miner.Base.Text.{same_text, same_text-some}

module _ (n : Numbers ℤ) (db : WalletDb) (laws : IsWalletDb db) where
  -- A change of one row changes the count by what it changes for that row.
  credits-change :
      (hash : Option String) (f : Transaction → Transaction) (t : Transaction) (w : Wallet)
      → HasUnique (λ (r : Transaction). r.id) w.transactions
      → db.transactions.find (λ r. r.id == t.id) w.transactions ≡ some t
      → credits hash (change_transaction db t.id f w) +ℤ credited hash t
        ≡ credits hash w +ℤ credited hash (f t)
  credits-change hash f t w ids here =
      sum_by-update_found db.transactions laws.transactions (λ r. r.id) t.id f w.transactions
        (credited hash) ids here

  credited_bounds :
      (hash : Option String) (t : Transaction)
      → (pos 0 ≤ℤ credited hash t) × (credited hash t ≤ℤ pos 1)
  credited_bounds hash t = ground arith

  credits-count_attempt :
      (hash : Option String) (k : ℕ) (t : Transaction) (w : Wallet)
      → HasUnique (λ (r : Transaction). r.id) w.transactions
      → db.transactions.find (λ r. r.id == t.id) w.transactions ≡ some t
      → credits hash (change_transaction db t.id (count_attempt db k) w) ≤ℤ credits hash w
  credits-count_attempt hash k t w ids here =
      let c = credits-change hash (count_attempt db k) t w ids here in
      omega (int_laws, ap pos_part c, ap neg_part c)

  failed_uncounted :
      (hash : Option String) (k : ℕ) (reason : FailReason) (t : Transaction)
      → credited hash (mark_failed db k reason t) ≡ pos 0
  failed_uncounted hash k reason t = ground arith

  credits-mark_failed :
      (hash : Option String) (k : ℕ) (reason : FailReason) (t : Transaction) (w : Wallet)
      → HasUnique (λ (r : Transaction). r.id) w.transactions
      → db.transactions.find (λ r. r.id == t.id) w.transactions ≡ some t
      → credits hash (change_transaction db t.id (mark_failed db k reason) w) ≤ℤ credits hash w
  credits-mark_failed hash k reason t w ids here =
      let c =
        credits-change hash (mark_failed db k reason) t w ids here
        ∙ ap (λ x. credits hash w +ℤ x) (failed_uncounted hash k reason t) in
      omega (int_laws, ap pos_part c, ap neg_part c, credited_bounds hash t)

  -- Where the search for another credit finds none, only the row itself can count for its hash.
  alone :
      (hash : Option String) (t r : Transaction)
      → t.tx_hash ≡ hash
      → is_other_credit db t r ≡ false
      → r.id ≢ t.id
      → credited hash r ≡ pos 0
  alone hash t r same none_other apart = rw (← same) (ground arith)

  credits-complete :
      (hash : Option String) (c : ChainTx) (now k : ℕ) (t : Transaction) (w : Wallet)
      → HasUnique (λ (r : Transaction). r.id) w.transactions
      → db.transactions.find (λ r. r.id == t.id) w.transactions ≡ some t
      → db.transactions.find (is_other_credit db t) w.transactions ≡ none
      → credits hash w ≤ℤ pos 1
      → credits hash (change_transaction db t.id (complete db c now k) w) ≤ℤ pos 1
  credits-complete hash c now k t w ids here none_other once =
      let change = credits-change hash (complete db c now k) t w ids here in
      elim (Bool-cases (same_text t.tx_hash hash)) [
        | inr other ↦
            let uncounted : credited hash (complete db c now k t) ≡ pos 0 = ground arith in
            omega (
              int_laws,
              ap pos_part change,
              ap neg_part change,
              ap pos_part uncounted,
              ap neg_part uncounted,
              credited_bounds hash t,
            )
        | inl same ↦
            let free =
              All-imp _ (λ r. r.id ≢ t.id → credited hash r ≡ pos 0) w.transactions
                (λ r. alone hash t r (same_text-some t.tx_hash hash same))
                (laws.transactions.find_none (is_other_credit db t) w.transactions none_other) in
            let single =
              sum_by-find_single db.transactions laws.transactions (λ r. r.id) t.id w.transactions
                (credited hash) ids here free in
            omega (
              int_laws,
              ap pos_part change,
              ap neg_part change,
              ap pos_part single,
              ap neg_part single,
              credited_bounds hash (complete db c now k t),
            )
      ]

  -- The bound that a verification keeps, in the branches that the chain's answers lead to.
  module _ (hash : Option String) (t : Transaction) (w : Wallet)
      (ids : HasUnique (λ (r : Transaction). r.id) w.transactions)
      (here : db.transactions.find (λ r. r.id == t.id) w.transactions ≡ some t)
      (once : credits hash w ≤ℤ pos 1) where
    attempt_once :
        (k : ℕ) → credits hash (change_transaction db t.id (count_attempt db k) w) ≤ℤ pos 1
    attempt_once k = omega (int_laws, credits-count_attempt hash k t w ids here)

    failed_once :
        (k : ℕ) (reason : FailReason)
        → credits hash (change_transaction db t.id (mark_failed db k reason) w) ≤ℤ pos 1
    failed_once k reason = omega (int_laws, credits-mark_failed hash k reason t w ids here)

    judge_once :
        (address : Option String) (c : ChainTx) (now k : ℕ)
        → credits hash (judge_deposit n db address c now k t w) ≤ℤ pos 1
    unfolding judge_deposit
    judge_once address c now k = elim (Option-cases (reject_reason db address c)) [
      | inr (reason, bad) ↦ rw (bad, judge_deposit) (failed_once k reason)
      | inl good ↦
          elim (Option-cases (db.transactions.find (is_other_credit db t) w.transactions)) [
            | inr (other, twice) ↦
                rw (good, twice, judge_deposit) (failed_once k (duplicate_txhash other.id))
            | inl new ↦ elim (Option-cases (db.users.find (λ r. r.id == t.user_id) w.users)) [
              | inl nobody ↦ rw (good, new, nobody, judge_deposit, credit_deposit) (attempt_once k)
              | inr (user, there) ↦
                  rw (good, new, there, judge_deposit, credit_deposit)
                    (credits-complete hash c now k t w ids here new once)
            ]
          ]
    ]

    module _ (chain : Chain) (address : Option String) (now : ℕ) where
      answers_once :
          (r : Answer Bool) (a : Answer ChainTx)
          → ltb max_attempts (t.verify_attempts + 1) ≡ false
          → chain.get_transaction_receipt t.tx_hash ≡ r
          → chain.get_transaction t.tx_hash ≡ a
          → credits hash (verify_one_pending_deposit n db chain address now t w) ≤ℤ pos 1
      unfolding verify_one_pending_deposit
      answers_once rpc_error a early e f =
          rw (early, e, verify_one_pending_deposit) (attempt_once (t.verify_attempts + 1))
      answers_once missing a early e f =
          rw (early, e, verify_one_pending_deposit) (attempt_once (t.verify_attempts + 1))
      answers_once (found false) a early e f =
          rw (early, e, verify_one_pending_deposit)
            (failed_once (t.verify_attempts + 1) tx_reverted)
      answers_once (found true) rpc_error early e f =
          rw (early, e, f, verify_one_pending_deposit) (attempt_once (t.verify_attempts + 1))
      answers_once (found true) missing early e f =
          rw (early, e, f, verify_one_pending_deposit) (attempt_once (t.verify_attempts + 1))
      answers_once (found true) (found c) early e f =
          rw (early, e, f, verify_one_pending_deposit)
            (judge_once address c now (t.verify_attempts + 1))

  -- If at most one deposit has been credited for a hash, that is so after the verification of any
  -- deposit that stands in the table, whatever the chain answers. No two rows share a key.
  pub verify_one_pending_deposit-once :
      (hash : Option String) (chain : Chain) (address : Option String) (now : ℕ) (t : Transaction)
      (w : Wallet)
      → HasUnique (λ (r : Transaction). r.id) w.transactions
      → db.transactions.find (λ r. r.id == t.id) w.transactions ≡ some t
      → credits hash w ≤ℤ pos 1
      → credits hash (verify_one_pending_deposit n db chain address now t w) ≤ℤ pos 1
  unfolding verify_one_pending_deposit
  verify_one_pending_deposit-once hash chain address now t w ids here once =
      elim (Bool-cases (ltb max_attempts (t.verify_attempts + 1))) [
        | inl late ↦
            rw (late, verify_one_pending_deposit)
              (failed_once hash t w ids here once (t.verify_attempts + 1) verification_timeout)
        | inr early ↦
            answers_once hash t w ids here once chain address now
              (chain.get_transaction_receipt t.tx_hash) (chain.get_transaction t.tx_hash) early refl
              refl
      ]
