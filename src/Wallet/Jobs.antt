-- ===== src/Wallet/Jobs.antt =====
-- That the jobs on withdrawals refine the vault (server/models/walletModel.js,
-- server/cron/withdrawalsCron.js).
use support_block_miner.Wallet.Refinement.{
  Refines, Refines-append, update_transaction_status-Refines,
}
use support_block_miner.Wallet.Vault.{at_rest, vault}
use support_block_miner.Base.{some, none, [], ◌∷◌, inl, inr, refl, ℕ, List, Option, String}
use support_block_miner.Engine.Numbers.{Numbers}
use support_block_miner.Base.Int.{ℤ}
use support_block_miner.Wallet.State.{WalletDb, IsWalletDb, Wallet}
use support_block_miner.Wallet.Withdrawals.{
  fail_each, settle_withdrawal, process_withdrawals, update_transaction_status,
}
use support_block_miner.Database.{Transaction, completed, failed}
use support_block_miner.Wallet.Open.{AreUnsettled, rest-AreUnsettled}
use support_block_miner.Wallet.Funds.{IsSound}
use support_block_miner.Base.Http.{Result-cases}

module _ (n : Numbers ℤ) (db : WalletDb) (laws : IsWalletDb db) where
  pub fail_each-Refines :
      (now : ℕ) (ts : List Transaction) (w : Wallet)
      → AreUnsettled ts w.transactions
      → IsSound w
      → Refines n db laws w (fail_each n db now ts w)
  unfolding fail_each
  fail_each-Refines now [] w on h = (h, at_rest (vault w))
  fail_each-Refines now (t ∷ ts) w on h =
      let w' = (update_transaction_status n db t.id failed none now w).1 in
      let first =
        update_transaction_status-Refines n db laws t.id failed none now w refl on.1.0 h in
      Refines-append n db laws w w' (fail_each n db now ts w') first (
        fail_each-Refines now ts w' (rest-AreUnsettled n db laws t ts failed none now w on) first.0)

  settle_withdrawal-Refines :
      (sent : Option String) (now : ℕ) (t : Transaction) (ts : List Transaction) (w : Wallet)
      → AreUnsettled (t ∷ ts) w.transactions
      → IsSound w
      → let w' = (settle_withdrawal n db sent now t w).1 in
        Refines n db laws w w' × AreUnsettled ts w'.transactions
  unfolding settle_withdrawal
  settle_withdrawal-Refines (some hash) now t ts w on h = (
    update_transaction_status-Refines n db laws t.id completed (some hash) now w refl on.1.0 h,
    rest-AreUnsettled n db laws t ts completed (some hash) now w on,
  )
  settle_withdrawal-Refines none now t ts w on h = (
    update_transaction_status-Refines n db laws t.id failed none now w refl on.1.0 h,
    rest-AreUnsettled n db laws t ts failed none now w on,
  )

  pub process_withdrawals-Refines :
      (send : Transaction → Option String) (now : ℕ) (ts : List Transaction) (w : Wallet)
      → AreUnsettled ts w.transactions
      → IsSound w
      → Refines n db laws w (process_withdrawals n db send now ts w)
  unfolding process_withdrawals
  process_withdrawals-Refines send now [] w on h = (h, at_rest (vault w))
  process_withdrawals-Refines send now (t ∷ ts) w on h =
      let settled = settle_withdrawal n db (send t) now t w in
      let (first, still) = settle_withdrawal-Refines (send t) now t ts w on h in
      elim (Result-cases settled.0) [
        | inr (message, lost) ↦ rw (lost, process_withdrawals) first
        | inl (done, answered) ↦
            rw (answered, process_withdrawals)
              (Refines-append n db laws w settled.1 (process_withdrawals n db send now ts settled.1)
                first (process_withdrawals-Refines send now ts settled.1 still first.0))
      ]
