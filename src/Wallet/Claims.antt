-- ===== src/Wallet/Claims.antt =====
-- What submitting a deposit can do (`submitDeposit`, server/controllers/walletController.js).
use support_block_miner.Wallet.Submit.{
  submit_deposit, submitted, already_verifying, DepositBody, claim_hash, submit_claim, Submission,
  is_other_claim, read_claim, is_deposit_of, answer_existing,
}
use support_block_miner.Base.{
  none, some, true, inl, inr, refl, ◌≡◌, ℕ, String, Option-cases, Bool-cases, arith, Option, [],
  ◌∷◌, ◌++◌,
}
use support_block_miner.Base.Http.{accepted, rejected, Response, Result-cases}
use support_block_miner.Engine.Numbers.{Numbers}
use support_block_miner.Base.Int.{ℤ}
use support_block_miner.Wallet.State.{WalletDb, Wallet, IsWalletDb}
use support_block_miner.Base.Text.{is_hex_text, codes}
use support_block_miner.Database.{pending_verification, Transaction}
use support_block_miner.Wallet.Deposits.{new_deposit}

module _ (n : Numbers ℤ) (db : WalletDb) (laws : IsWalletDb db) where
  -- A new row waits for its verification, has a well-formed hash, and no other user has a deposit with this
  -- hash that waits or was credited.
  abbrev pub IsSubmission : ℕ → Option String → Wallet → Response Submission × Wallet → Type 0
  IsSubmission u tx_hash w (accepted (submitted t), w') =
      (hash : String) × (tx_hash ≡ some hash)
      × (t.tx_hash ≡ some hash)
      × (is_hex_text 64 (codes hash) ≡ true)
      × (t.user_id ≡ u)
      × (t.status ≡ pending_verification)
      × (db.transactions.find (is_other_claim u hash) w.transactions ≡ none)
      × (w'.transactions ≡ w.transactions ++ t ∷ [])
  IsSubmission u tx_hash w (accepted (already_verifying i), w') = w' ≡ w
  IsSubmission u tx_hash w (rejected status message, w') = w' ≡ w

  claim_hash-submits :
      (id u : ℕ) (amount : ℤ) (hash : String) (w : Wallet)
      → is_hex_text 64 (codes hash) ≡ true
      → IsSubmission u (some hash) w (claim_hash n db id u amount hash w)
        × ((claim_hash n db id u amount hash w).1.users ≡ w.users)
        × ((claim_hash n db id u amount hash w).1.engine ≡ w.engine)
  unfolding claim_hash
  claim_hash-submits id u amount hash w hex =
      elim (Option-cases (db.transactions.find (is_other_claim u hash) w.transactions)) [
        | inr (t, other) ↦ rw (other, claim_hash) (refl, refl, refl)
        | inl free ↦
            rw (free, claim_hash)
              (
                (
                  hash,
                  refl,
                  refl,
                  hex,
                  refl,
                  refl,
                  free,
                  laws.transactions.create_rows
                      (new_deposit n db id u amount hash pending_verification none) w.transactions,
                ),
                refl,
                refl,
              )
      ]

  answered :
      (u : ℕ) (tx_hash : Option String) (w : Wallet) (t : Transaction)
      (answer : Response Submission)
      → answer_existing n db t ≡ some answer
      → IsSubmission u tx_hash w (answer, w)
  answered u tx_hash w t (accepted (submitted x)) h = absurd (ground arith)
  answered u tx_hash w t (accepted (already_verifying i)) h = refl
  answered u tx_hash w t (rejected status message) h = refl

  -- Submitting a deposit changes no balance, in the table or in memory. Where it answers
  -- with a new row, the row is added to the table, waits for its verification, has a well-formed hash, and
  -- no other user has a deposit with this hash that waits or was credited; each other answer changes
  -- nothing.
  pub submit_deposit-submits :
      (id u : ℕ) (body : DepositBody) (w : Wallet)
      → IsSubmission u body.tx_hash w (submit_deposit n db id u body w)
        × ((submit_deposit n db id u body w).1.users ≡ w.users)
        × ((submit_deposit n db id u body w).1.engine ≡ w.engine)
  unfolding submit_deposit submit_claim
  submit_deposit-submits id u body w = elim (Option-cases body.tx_hash) [
    | inl missing ↦ rw (missing, submit_deposit) (refl, refl, refl)
    | inr (hash, given) ↦ elim (Bool-cases (is_hex_text 64 (codes hash))) [
      | inr bad ↦ rw (given, bad, submit_deposit) (refl, refl, refl)
      | inl hex ↦ elim (Result-cases (read_claim body.claimed_amount)) [
        | inr (message, unread) ↦ rw (given, hex, unread, submit_deposit) (refl, refl, refl)
        | inl (amount, read) ↦
            let made = claim_hash-submits id u amount hash w hex in
            elim (Option-cases (db.transactions.find (is_deposit_of u hash) w.transactions)) [
              | inl new ↦ rw (given, hex, read, new, submit_deposit, submit_claim) made
              | inr (t, old) ↦ elim (Option-cases (answer_existing n db t)) [
                | inl on ↦ rw (given, hex, read, old, on, submit_deposit, submit_claim) made
                | inr (answer, stop) ↦
                    rw (given, hex, read, old, stop, submit_deposit, submit_claim)
                      (answered u (some hash) w t answer stop, refl, refl)
              ]
            ]
      ]
    ]
  ]
