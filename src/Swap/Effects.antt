-- ===== src/Swap/Effects.antt =====
-- What a swap does to the balances (`executeSwap`, server/controllers/swapController.js).
use support_block_miner.Database.{User}
use support_block_miner.Base.{
  some, false, inl, inr, refl, ◌==◌, ◌≡◌, if◌then◌else◌, ℕ, Bool, Option-cases, Bool-cases, ap, ◌⊎◌,
}
use support_block_miner.Base.Int.{◌+ℤ◌, ℤ, ltb_ℤ, neg, int_laws, pos_part, neg_part}
use support_block_miner.Base.Http.{accepted, rejected, Response}
use support_block_miner.Wallet.State.{Wallet, WalletDb, IsWalletDb}
use support_block_miner.Engine.Numbers.{Numbers}
use support_block_miner.Base.Table.{sum_by, HasUnique, sum_by-update_found}
use support_block_miner.Swap.Exchange.{execute_swap, exchange}
use support_block_miner.Wallet.Funds.{balances}
use support_block_miner.Engine.Miners.{apply_user_balance_delta}

abbrev pub usdc_balances : Wallet → ℤ
usdc_balances w = sum_by (λ u. u.usdc_balance) w.users

module _ (n : Numbers ℤ) (db : WalletDb) (laws : IsWalletDb db) where
  -- An accepted swap takes the amount from the one balance and adds the output to the other. A rejected
  -- one changes nothing, but where the audit log fails, it leaves the change of POL in memory.
  abbrev pub Swapped : Bool → Bool → ℤ → ℤ → ℕ → Wallet → Response ℤ × Wallet → Type 0
  Swapped logged from_pol amount rate u w (accepted output, w') =
      (output ≡ (if from_pol then n.mul amount rate else n.div amount rate))
      × (balances w' ≡ balances w +ℤ (if from_pol then neg amount else output))
      × (usdc_balances w' ≡ usdc_balances w +ℤ (if from_pol then output else neg amount))
  Swapped logged from_pol amount rate u w (rejected status message, w') =
      (w' ≡ w)
      ⊎ ((logged ≡ false)
          × (w'.users ≡ w.users)
          × (w'.transactions ≡ w.transactions)
          × (w'.engine
              ≡ apply_user_balance_delta n u (if from_pol then neg amount else n.div amount rate)
                  w.engine))

  exchange-balances :
      (u : ℕ) (pol_change usdc_change : ℤ) (w : Wallet) {user : User}
      → HasUnique (λ (r : User). r.id) w.users
      → db.users.find (λ r. r.id == u) w.users ≡ some user
      → (balances (exchange n db u pol_change usdc_change w) ≡ balances w +ℤ pol_change)
        × (usdc_balances (exchange n db u pol_change usdc_change w)
            ≡ usdc_balances w +ℤ usdc_change)
  exchange-balances u pol_change usdc_change w ids found =
      let change = λ (g : User → ℤ).
        sum_by-update_found db.users laws.users (λ r. r.id) u
          (λ r. record r {
            pol_balance = r.pol_balance +ℤ pol_change;
            usdc_balance = r.usdc_balance +ℤ usdc_change;
          })
          w.users g ids found in
      let in_pol = change (λ r. r.pol_balance) in
      let in_usdc = change (λ r. r.usdc_balance) in
      (
        omega (int_laws, ap pos_part in_pol, ap neg_part in_pol),
        omega (int_laws, ap pos_part in_usdc, ap neg_part in_usdc),
      )

  -- An accepted swap moves the sums of both balances by the amount, of at most eight decimals, and by the
  -- output as the columns keep it, in either direction. A rejected one leaves the tables as they were, and
  -- the engine too, unless the audit log has failed: then the engine keeps the change of POL. No two users
  -- share a key.
  pub execute_swap-Swapped :
      (logged from_pol : Bool) (amount rate : ℤ) (u : ℕ) (w : Wallet)
      → HasUnique (λ (r : User). r.id) w.users
      → Swapped logged from_pol amount rate u w (execute_swap n db logged from_pol amount rate u w)
  unfolding execute_swap
  execute_swap-Swapped logged from_pol amount rate u w ids =
      elim (Option-cases (db.users.find (λ r. r.id == u) w.users)) [
        | inl nobody ↦ rw (nobody, execute_swap) (inl refl)
        | inr (user, found) ↦
            let moved = λ (a b : ℤ). exchange-balances u a b w ids found in
            elim (Bool-cases from_pol) [
              | inl sells ↦ elim (Bool-cases (ltb_ℤ user.pol_balance amount)) [
                | inl poor ↦ rw (found, sells, poor, execute_swap) (inl refl)
                | inr rich ↦ elim (Bool-cases logged) [
                  | inl done ↦
                      rw (found, sells, rich, done, execute_swap)
                        (refl, (moved _ _).0, (moved _ _).1)
                  | inr lost ↦
                      rw (found, sells, rich, lost, execute_swap) (inr (refl, refl, refl, refl))
                ]
              ]
              | inr buys ↦ elim (Bool-cases (ltb_ℤ user.usdc_balance amount)) [
                | inl poor ↦ rw (found, buys, poor, execute_swap) (inl refl)
                | inr rich ↦ elim (Bool-cases logged) [
                  | inl done ↦
                      rw (found, buys, rich, done, execute_swap)
                        (refl, (moved _ _).0, (moved _ _).1)
                  | inr lost ↦
                      rw (found, buys, rich, lost, execute_swap) (inr (refl, refl, refl, refl))
                ]
              ]
            ]
      ]
