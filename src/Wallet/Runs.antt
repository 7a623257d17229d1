-- ===== src/Wallet/Runs.antt =====
-- The withdrawals over the life of the server (server/controllers/walletController.js,
-- server/cron/withdrawalsCron.js, server/models/walletModel.js).
use support_block_miner.Wallet.Vault.{at_rest, vault, VaultRun-in_all, in_all}
use support_block_miner.Wallet.Refinement.{
  Refines, Refines-append, one-Refines, create_withdrawal-VaultStep,
}
use support_block_miner.Wallet.Funds.{IsSound, create_withdrawal-conserves}
use support_block_miner.Wallet.State.{Wallet, WalletDb, IsWalletDb}
use support_block_miner.Wallet.Withdrawals.{
  create_withdrawal, process_pending_withdrawals, get_pending_withdrawals,
  fail_all_pending_withdrawals, request_withdrawal, withdraw_amount, answer_withdrawal,
  WithdrawalBody, withdraw_min_pol,
}
use support_block_miner.Engine.Numbers.{Numbers}
use support_block_miner.Database.{Transaction, is_withdrawal, is_pending, is_approved}
use support_block_miner.Base.{
  none, some, true, false, inl, inr, refl, ◌≡◌, ◌≢◌, ◌&&◌, arith, ℕ, All, String, Option, Bool,
  Bool-cases, Option-cases, sym, ◌||◌,
}
use support_block_miner.Base.Int.{pos, ◌≤ℤ◌, ℤ, ltb_ℤ}
use support_block_miner.Base.Http.{ok, throw, Result}
use support_block_miner.Base.Text.{is_hex_text, codes}
use mathlib.Core.Path.{subst}
use support_block_miner.Wallet.Jobs.{process_withdrawals-Refines, fail_each-Refines}
use support_block_miner.Wallet.Open.{find_many-AreUnsettled}

module _ (n : Numbers ℤ) (db : WalletDb) where
  -- One call. The key of a new withdrawal is that of no other transaction.
  pub data WithdrawalStep : Wallet → Wallet → Type 0 where
    asks :
        (id u : ℕ) (body : WithdrawalBody) (w : Wallet)
        → All (λ t. t.id ≢ id) w.transactions
        → WithdrawalStep w (request_withdrawal n db id u body w).1
    processes :
        (has_key : Bool) (send : Transaction → Option String) (now : ℕ) (w : Wallet)
        → WithdrawalStep w (process_pending_withdrawals n db has_key send now w)
    fails_all :
        (now : ℕ) (w : Wallet) → WithdrawalStep w (fail_all_pending_withdrawals n db now w).1

  pub data WithdrawalRun : Wallet → Wallet → Type 0 where
    no_call : (w : Wallet) → WithdrawalRun w w
    then_call :
        (w w' w'' : Wallet) → WithdrawalRun w w' → WithdrawalStep w' w'' → WithdrawalRun w w''

  module _ (laws : IsWalletDb db) where
    answer_withdrawal-keeps : (p : Result Transaction × Wallet) → (answer_withdrawal n db p).1 ≡ p.1
    answer_withdrawal-keeps (ok t, w) = refl
    answer_withdrawal-keeps (throw message, w) = refl

    create_withdrawal-Refines :
        (id u : ℕ) (amount : ℤ) (address : String) (w : Wallet)
        → IsSound w
        → pos 0 ≤ℤ amount
        → All (λ t. t.id ≢ id) w.transactions
        → Refines n db laws w (create_withdrawal n db id u amount address w).1
    create_withdrawal-Refines id u amount address w h positive new =
        one-Refines n db laws w (create_withdrawal n db id u amount address w).1
          (create_withdrawal-conserves n db laws id u amount address w h positive new).0
          (create_withdrawal-VaultStep n db laws id u amount address w h positive)

    withdraw_amount-Refines :
        (id u : ℕ) (parsed : Option ℤ) (address : String) (w : Wallet)
        → IsSound w
        → All (λ t. t.id ≢ id) w.transactions
        → Refines n db laws w (withdraw_amount n db id u parsed address w).1
    withdraw_amount-Refines id u none address w h new = (h, at_rest (vault w))
    withdraw_amount-Refines id u (some amount) address w h new =
        elim (Bool-cases (ltb_ℤ amount (withdraw_min_pol n db))) [
          | inl small ↦ rw small (h, at_rest (vault w))
          | inr large ↦ rw large (
              subst (λ w'. Refines n db laws w w')
                (sym (answer_withdrawal-keeps (create_withdrawal n db id u amount address w)))
                (create_withdrawal-Refines id u amount address w h (ground arith) new))
        ]

    request_withdrawal-Refines :
        (id u : ℕ) (body : WithdrawalBody) (w : Wallet)
        → IsSound w
        → All (λ t. t.id ≢ id) w.transactions
        → Refines n db laws w (request_withdrawal n db id u body w).1
    unfolding request_withdrawal
    request_withdrawal-Refines id u body w h new = elim (Option-cases body.amount) [
      | inl missing ↦ rw (missing, request_withdrawal) (h, at_rest (vault w))
      | inr (parsed, given) ↦ elim (Option-cases body.address) [
        | inl nowhere ↦ rw (given, nowhere, request_withdrawal) (h, at_rest (vault w))
        | inr (address, there) ↦ elim (Bool-cases (is_hex_text 40 (codes address))) [
          | inr bad ↦ rw (given, there, bad, request_withdrawal) (h, at_rest (vault w))
          | inl good ↦
              rw (given, there, good, request_withdrawal)
                (withdraw_amount-Refines id u parsed address w h new)
        ]
      ]
    ]

    process_pending_withdrawals-Refines :
        (has_key : Bool) (send : Transaction → Option String) (now : ℕ) (w : Wallet)
        → IsSound w
        → Refines n db laws w (process_pending_withdrawals n db has_key send now w)
    unfolding process_pending_withdrawals get_pending_withdrawals
    process_pending_withdrawals-Refines true send now w h =
        process_withdrawals-Refines n db laws send now (get_pending_withdrawals n db w) w
          (find_many-AreUnsettled n db laws
            (λ t. is_withdrawal t.type && (is_pending t.status || is_approved t.status))
            w.transactions (λ t p. ground arith) h.transaction_ids)
          h
    process_pending_withdrawals-Refines false send now w h = (h, at_rest (vault w))

    fail_all_pending_withdrawals-Refines :
        (now : ℕ) (w : Wallet)
        → IsSound w
        → Refines n db laws w (fail_all_pending_withdrawals n db now w).1
    unfolding fail_all_pending_withdrawals
    fail_all_pending_withdrawals-Refines now w h =
        fail_each-Refines n db laws now
          (db.transactions.find_many (λ t. is_withdrawal t.type && is_pending t.status)
            w.transactions)
          w
          (find_many-AreUnsettled n db laws (λ t. is_withdrawal t.type && is_pending t.status)
            w.transactions (λ t p. ground arith) h.transaction_ids)
          h

    step-Refines : (w w' : Wallet) → WithdrawalStep w w' → IsSound w → Refines n db laws w w'
    step-Refines _ _ (asks id u body w new) h = request_withdrawal-Refines id u body w h new
    step-Refines _ _ (processes has_key send now w) h =
        process_pending_withdrawals-Refines has_key send now w h
    step-Refines _ _ (fails_all now w) h = fail_all_pending_withdrawals-Refines now w h

    -- Any sequence of requests for withdrawals and of the jobs that pay them or fail them is a run of the
    -- vault, in which money is only reserved, given back or, where a withdrawal is completed, paid: the wallet
    -- stays sound, and the balances, the reserved amounts and what completed withdrawals have taken are
    -- together always the same. It starts sound, and the key of a new withdrawal is that of no other
    -- transaction.
    pub withdrawals-Refines :
        (w w' : Wallet)
        → WithdrawalRun w w'
        → IsSound w
        → Refines n db laws w w' × (in_all (vault w') ≡ in_all (vault w))
    withdrawals-Refines _ _ (no_call w) h = ((h, at_rest (vault w)), refl)
    withdrawals-Refines _ _ (then_call w w' w'' run step) h =
        let before = (withdrawals-Refines w w' run h).0 in
        let all = Refines-append n db laws w w' w'' before (step-Refines w' w'' step before.0) in
        (all, VaultRun-in_all (vault w) (vault w'') all.1)
