-- ===== src/Wallet/Credits.antt =====
-- What the verification of a deposit credits, and that no hash is credited twice
-- (server/services/depositVerifier.js).
use support_block_miner.Base.{
  none, true, false, inl, inr, refl, ◌==◌, ◌+◌, ◌≡◌, ◌&&◌, if◌then◌else◌, arith, ℕ, Option, String,
  is_some, ◌⊎◌, Option-cases, Bool-cases, ltb, Bool, ◌≤◌,
}
use support_block_miner.Base.Int.{pos, ◌+ℤ◌, ℤ}
use support_block_miner.Wallet.Deposits.{
  rpc_error, missing, found, Chain, ChainTx, found, reject_reason, credit_deposit, judge_deposit,
  verify_one_pending_deposit, is_other_credit, max_attempts, Answer,
}
use support_block_miner.Engine.Numbers.{Numbers}
use support_block_miner.Database.{Transaction, is_deposit, is_completed, User}
use support_block_miner.Wallet.State.{Wallet, WalletDb, IsWalletDb}
use support_block_miner.Base.Table.{sum_by, HasUnique}
use support_block_miner.Base.Text.{same_text, same_text-some}
use support_block_miner.Wallet.Funds.{balances, balances-add_to_balance}

-- 1 for a deposit that was credited for the hash.
abbrev pub credited : Option String → Transaction → ℤ
credited hash r =
    if is_deposit r.type && is_completed r.status && same_text r.tx_hash hash then pos 1 else pos 0

-- How many deposits were credited for a hash.
abbrev pub credits : Option String → Wallet → ℤ
credits hash w = sum_by (credited hash) w.transactions

-- What the chain says of a transfer that may be credited.
abbrev pub IsGoodTransfer : Chain → Option String → Option String → ChainTx → Type 0
IsGoodTransfer chain address hash c =
    (chain.get_transaction_receipt hash ≡ found true)
    × (chain.get_transaction hash ≡ found c)
    × (is_some address ≡ true)
    × (c.to ≡ address)
    × (c.chain_id ≡ 137)
    × (100_000_000_000_000 ≤ c.value)

module _ (n : Numbers ℤ) (db : WalletDb) (laws : IsWalletDb db) where
  reject_reason-none :
      (address : Option String) (c : ChainTx)
      → reject_reason db address c ≡ none
      → (is_some address ≡ true)
        × (c.to ≡ address)
        × (c.chain_id ≡ 137)
        × (100_000_000_000_000 ≤ c.value)
  reject_reason-none address c h =
      (ground arith, same_text-some c.to address (ground arith), ground arith, ground arith)

  credit_deposit-balances :
      (c : ChainTx) (now attempts : ℕ) (t : Transaction) (w : Wallet)
      → HasUnique (λ (u : User). u.id) w.users
      → let w' = credit_deposit n db c now attempts t w in
        (balances w' ≡ balances w) ⊎ (balances w' ≡ balances w +ℤ db.amount_of_wei c.value)
  unfolding credit_deposit
  credit_deposit-balances c now attempts t w ids =
      elim (Option-cases (db.users.find (λ r. r.id == t.user_id) w.users)) [
        | inl nobody ↦ rw (nobody, credit_deposit) (inl refl)
        | inr (user, there) ↦
            rw (there, credit_deposit)
              (inr (
                balances-add_to_balance n db laws t.user_id (db.amount_of_wei c.value) w ids there))
      ]

  judge_deposit-balances :
      (address : Option String) (c : ChainTx) (now attempts : ℕ) (t : Transaction) (w : Wallet)
      → HasUnique (λ (u : User). u.id) w.users
      → let w' = judge_deposit n db address c now attempts t w in
        (balances w' ≡ balances w)
        ⊎ ((reject_reason db address c ≡ none)
            × (balances w' ≡ balances w +ℤ db.amount_of_wei c.value))
  unfolding judge_deposit
  judge_deposit-balances address c now attempts t w ids =
      elim (Option-cases (reject_reason db address c)) [
        | inr (reason, bad) ↦ rw (bad, judge_deposit) (inl refl)
        | inl good ↦
            elim (Option-cases (db.transactions.find (is_other_credit db t) w.transactions)) [
              | inr (other, twice) ↦ rw (good, twice, judge_deposit) (inl refl)
              | inl once ↦ elim (credit_deposit-balances c now attempts t w ids) [
                | inl same ↦ rw (good, once, judge_deposit) (inl same)
                | inr more ↦ rw (good, once, judge_deposit) (inr (refl, more))
              ]
            ]
      ]

  -- The outcome of a verification, as far as the balances are concerned.
  abbrev pub Outcome : Chain → Option String → Transaction → Wallet → Wallet → Type 0
  Outcome chain address t w w' =
      (balances w' ≡ balances w)
      ⊎ ((c : ChainTx) × IsGoodTransfer chain address t.tx_hash c
          × (balances w' ≡ balances w +ℤ db.amount_of_wei c.value))

  module _ (chain : Chain) (address : Option String) (now : ℕ) (t : Transaction) (w : Wallet)
      (ids : HasUnique (λ (u : User). u.id) w.users)
      (early : ltb max_attempts (t.verify_attempts + 1) ≡ false) where
    by_answers :
        (r : Answer Bool) (a : Answer ChainTx)
        → chain.get_transaction_receipt t.tx_hash ≡ r
        → chain.get_transaction t.tx_hash ≡ a
        → Outcome chain address t w (verify_one_pending_deposit n db chain address now t w)
    unfolding verify_one_pending_deposit
    by_answers rpc_error a e f = rw (early, e, verify_one_pending_deposit) (inl refl)
    by_answers missing a e f = rw (early, e, verify_one_pending_deposit) (inl refl)
    by_answers (found false) a e f = rw (early, e, verify_one_pending_deposit) (inl refl)
    by_answers (found true) rpc_error e f = rw (early, e, f, verify_one_pending_deposit) (inl refl)
    by_answers (found true) missing e f = rw (early, e, f, verify_one_pending_deposit) (inl refl)
    by_answers (found true) (found c) e f =
        elim (judge_deposit-balances address c now (t.verify_attempts + 1) t w ids) [
          | inl same ↦ rw (early, e, f, verify_one_pending_deposit) (inl same)
          | inr (good, more) ↦
              let (given, to, chain_id, value) = reject_reason-none address c good in
              rw (early, e, f, verify_one_pending_deposit)
                (inr (c, (refl, refl, given, to, chain_id, value), more))
        ]

  -- The verification of a deposit leaves the sum of the balances as it was, or adds to it what the
  -- column keeps of the value of a transfer that succeeded on the chain, on Polygon, to the deposit address,
  -- of at least 0.0001 POL: never the amount that the user claimed. No two users share a key.
  pub verify_one_pending_deposit-balances :
      (chain : Chain) (address : Option String) (now : ℕ) (t : Transaction) (w : Wallet)
      → HasUnique (λ (u : User). u.id) w.users
      → Outcome chain address t w (verify_one_pending_deposit n db chain address now t w)
  unfolding verify_one_pending_deposit
  verify_one_pending_deposit-balances chain address now t w ids =
      elim (Bool-cases (ltb max_attempts (t.verify_attempts + 1))) [
        | inl late ↦ rw (late, verify_one_pending_deposit) (inl refl)
        | inr early ↦
            by_answers chain address now t w ids early (chain.get_transaction_receipt t.tx_hash)
              (chain.get_transaction t.tx_hash) refl refl
      ]
