-- ===== src/Wallet/Submit.antt =====
-- The handler `submitDeposit` (server/controllers/walletController.js). The verification that it
-- starts runs later, as a call of its own.
use support_block_miner.Base.{
  none, some, ◌==◌, ◌&&◌, ◌||◌, if◌then◌else◌, ℕ, Option, String, Bool, not,
}
use support_block_miner.Base.Int.{pos, ℤ, ltb_ℤ}
use support_block_miner.Base.Http.{accepted, rejected, ok, throw, Result, Response}
use support_block_miner.Database.{
  Transaction, is_deposit, is_completed, is_pending_verification, pending_verification, is_failed,
}
use support_block_miner.Engine.Numbers.{Numbers}
use support_block_miner.Wallet.State.{pol, WalletDb, Wallet}
use support_block_miner.Base.Text.{same_text, is_hex_text, codes}
use support_block_miner.Wallet.Deposits.{new_deposit}

-- The body of a request: the hash after `trim().toLowerCase()`, none where it is missing or no text;
-- the claimed amount is none where it is missing or empty, and `some none` where `parseFloat` cannot
-- read it.
pub record DepositBody : Type 0 where
  pub tx_hash : Option String
  pub claimed_amount : Option (Option ℤ)

-- What an accepted request answers: a new row, or the row that is being verified already.
pub data Submission : Type 0 where
  submitted : Transaction → Submission
  already_verifying : ℕ → Submission

abbrev pub deposit_min_pol : ℤ
deposit_min_pol = pol 1

-- `parsedClaimed`, or the message of a bad amount
abbrev pub read_claim : Option (Option ℤ) → Result ℤ
read_claim none = ok (pos 0)
read_claim (some none) = throw "Valor inválido."
read_claim (some (some amount)) =
    if ltb_ℤ amount (pos 0)
    then throw "Valor inválido."
    else if ltb_ℤ (pos 0) amount && ltb_ℤ amount deposit_min_pol
    then throw "Depósito mínimo é 1 POL."
    else ok amount

abbrev pub is_deposit_of : ℕ → String → Transaction → Bool
is_deposit_of u hash t = same_text t.tx_hash (some hash) && t.user_id == u && is_deposit t.type

abbrev pub is_other_claim : ℕ → String → Transaction → Bool
is_other_claim u hash t =
    same_text t.tx_hash (some hash)
    && is_deposit t.type
    && (is_completed t.status || is_pending_verification t.status)
    && not (t.user_id == u)

module _ (n : Numbers ℤ) (db : WalletDb) where
  -- From the search for another user's claim on.
  unfoldable pub claim_hash : ℕ → ℕ → ℤ → String → Wallet → Response Submission × Wallet
  claim_hash id u amount hash w =
      elim (db.transactions.find (is_other_claim u hash) w.transactions) [
        | some _ ↦ (rejected 409 "Esta transação já foi reivindicada por outra conta.", w)
        | none ↦
            let t = new_deposit n db id u amount hash pending_verification none in
            (
              accepted (submitted t),
              record w { transactions = db.transactions.create t w.transactions },
            )
      ]

  -- The answer where the user has a deposit with this hash already, by its status; none where the
  -- handler goes on.
  abbrev pub answer_existing : Transaction → Option (Response Submission)
  answer_existing t =
      if is_completed t.status
      then some (rejected 409 "Esta transação já foi processada e creditada.")
      else if is_pending_verification t.status
      then some (accepted (already_verifying t.id))
      else if is_failed t.status
      then some (rejected 409 "A verificação deste depósito falhou.")
      else none

  unfoldable pub submit_claim : ℕ → ℕ → ℤ → String → Wallet → Response Submission × Wallet
  unfolding claim_hash
  submit_claim id u amount hash w =
      elim (db.transactions.find (is_deposit_of u hash) w.transactions) [
        | none ↦ claim_hash id u amount hash w
        | some t ↦ elim (answer_existing t) [
          | some answer ↦ (answer, w)
          | none ↦ claim_hash id u amount hash w
        ]
      ]

  unfoldable pub submit_deposit : ℕ → ℕ → DepositBody → Wallet → Response Submission × Wallet
  unfolding submit_claim
  submit_deposit id u body w = elim body.tx_hash [
    | none ↦ (rejected 400 "Hash da transação obrigatório.", w)
    | some hash ↦
        if is_hex_text 64 (codes hash)
        then elim (read_claim body.claimed_amount) [
          | throw message ↦ (rejected 400 message, w)
          | ok amount ↦ submit_claim id u amount hash w
        ]
        else (rejected 400 "Hash inválido.", w)
  ]
