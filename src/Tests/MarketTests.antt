-- ===== src/Tests/MarketTests.antt =====
-- Runs of the shop and of the swap, and their theorems at those inputs.
use support_block_miner.Tests.Stores.{
  small_miner, counts, house_db, wallet_db, house_db-IsHouseDb, wallet_db-IsWalletDb,
}
use support_block_miner.Base.{none, some, true, [], ◌∷◌, refl, ◌≡◌, arith, map}
use support_block_miner.Base.Int.{pos, ◌+ℤ◌, scale, neg, ◌-ℤ◌}
use support_block_miner.Database.{User}
use support_block_miner.Rooms.State.{House}
use support_block_miner.Accounts.{IsSolvent}
use support_block_miner.Shop.Sales.{Purchased, purchase_miner-Purchased}
use support_block_miner.Shop.Purchase.{purchase_miner, checkout}
use support_block_miner.Wallet.State.{Wallet}
use support_block_miner.Swap.Effects.{Swapped, execute_swap-Swapped}
use support_block_miner.Swap.Exchange.{execute_swap}
use support_block_miner.Base.Table.{memory, memory-IsTable}

abbrev buyer : User
buyer = record { id = 7; pol_balance = pos 600; usdc_balance = pos 0; wallet_address = none }

abbrev shopper : House
shopper = record {
  users = buyer ∷ [];
  rooms = [];
  racks = [];
  miners = [];
  inventory = [];
  engine = none;
}

buyer-IsSolvent : IsSolvent shopper.users
buyer-IsSolvent = record { ids = (tt, tt); covered = (omega arith, tt) }

purchase_miner-Purchased_example :
    Purchased counts house_db house_db-IsHouseDb memory memory-IsTable 25
      (small_miner ∷ [])
      (some 2)
      (some 3)
      shopper
      (purchase_miner counts house_db memory 25
        (small_miner ∷ [])
        40
        900
        7
        (some 2)
        (some 3)
        shopper)
    × IsSolvent
        (purchase_miner counts house_db memory 25
          (small_miner ∷ [])
          40
          900
          7
          (some 2)
          (some 3)
          shopper).1.users
purchase_miner-Purchased_example =
    purchase_miner-Purchased counts house_db house_db-IsHouseDb memory memory-IsTable 25
      (small_miner ∷ []) 40 900 7 (some 2) (some 3) shopper buyer-IsSolvent

balance_after :
    map
      (λ r. r.pol_balance)
      (purchase_miner counts house_db memory 25
        (small_miner ∷ [])
        40
        900
        7
        (some 2)
        (some 3)
        shopper).1.users
    ≡ pos 300 ∷ []
unfolding purchase_miner checkout ◌+ℤ◌ scale neg ◌-ℤ◌
balance_after = refl

abbrev trader : Wallet
trader = record { users = buyer ∷ []; transactions = []; engine = none }

execute_swap-Swapped_example :
    Swapped counts wallet_db wallet_db-IsWalletDb true true
      (pos 200)
      (pos 2)
      7
      trader
      (execute_swap counts wallet_db true true (pos 200) (pos 2) 7 trader)
execute_swap-Swapped_example =
    execute_swap-Swapped counts wallet_db wallet_db-IsWalletDb true true (pos 200) (pos 2) 7 trader
      (tt, tt)
