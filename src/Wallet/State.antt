-- ===== src/Wallet/State.antt =====
-- What the wallet's operations read and change: two tables and the engine in memory.
use support_block_miner.Base.Int.{pos, ◌+ℤ◌, ℤ}
use support_block_miner.Base.{◌==◌, ◌*◌, ℕ, List, Option}
use support_block_miner.Base.Table.{Table, IsTable}
use support_block_miner.Engine.Numbers.{Numbers}
use support_block_miner.Database.{User, Transaction}
use support_block_miner.Engine.Miners.{apply_user_balance_delta}
use support_block_miner.Engine.State.{Engine}

pub record Wallet : Type 0 where
  pub users : List User
  pub transactions : List Transaction
  pub engine : Option (Engine ℤ)

-- The database client for the two tables, and the amount that a column Decimal(20, 8) keeps, in 10⁻⁸ POL, of
-- the number `parseFloat(ethers.formatEther(value))`, for a value in wei.
pub record WalletDb : Type 0 where
  pub amount_of_wei : ℕ → ℤ
  pub users : Table User
  pub transactions : Table Transaction

pub record IsWalletDb (db : WalletDb) : Type 0 where
  pub users : IsTable db.users
  pub transactions : IsTable db.transactions

-- POL as a count of 10⁻⁸.
abbrev pub pol : ℕ → ℤ
pol n = pos (n * 100_000_000)

module _ (n : Numbers ℤ) (db : WalletDb) where
  -- `user.update({ where: { id }, data: { polBalance: { increment: delta } } })`, and the same in
  -- memory by `applyUserBalanceDelta`.
  abbrev pub add_to_balance : ℕ → ℤ → Wallet → Wallet
  add_to_balance u delta w = record w {
    users =
        db.users.update (λ r. r.id == u) (λ r. record r { pol_balance = r.pol_balance +ℤ delta })
          w.users;
    engine = apply_user_balance_delta n u delta w.engine;
  }
