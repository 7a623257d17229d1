-- ===== src/Wallet/Funds.antt =====
-- The money in the wallet: what the users hold and what open withdrawals have taken from them
-- (server/models/walletModel.js).
use support_block_miner.Base.{
  some, inl, inr, refl, ◌==◌, ◌≡◌, ◌≢◌, ◌&&◌, if◌then◌else◌, ℕ, All, not, String, Option-cases, ap,
  Bool-cases,
}
use support_block_miner.Base.Int.{
  pos, ◌+ℤ◌, ◌≤ℤ◌, ℤ, int_laws, pos_part, neg_part, ltb_ℤ, neg, not-ltb_ℤ→le,
}
use support_block_miner.Wallet.State.{Wallet, WalletDb, IsWalletDb, add_to_balance}
use support_block_miner.Database.{Transaction, User, is_withdrawal, is_completed, is_failed}
use support_block_miner.Engine.Numbers.{Numbers}
use support_block_miner.Base.Table.{
  HasUnique, sum_by, sum_by-update_found, update-HasUnique, update_found-All, create-HasUnique,
  create-All, sum_by-create,
}
use support_block_miner.Wallet.Withdrawals.{
  create_withdrawal, is_pending_withdrawal_of, new_withdrawal,
}

-- Keys are unique, no balance and no amount is negative.
pub record IsSound (w : Wallet) : Type 0 where
  pub user_ids : HasUnique (λ (u : User). u.id) w.users
  pub transaction_ids : HasUnique (λ (t : Transaction). t.id) w.transactions
  pub solvent : All (λ u. pos 0 ≤ℤ u.pol_balance) w.users
  pub amounts : All (λ t. pos 0 ≤ℤ t.amount) w.transactions

-- What an open withdrawal has taken from the balance of its user.
abbrev pub reserved : Transaction → ℤ
reserved t =
    if is_withdrawal t.type
      && t.funds_reserved
      && not (is_completed t.status)
      && not (is_failed t.status)
    then t.amount
    else pos 0

abbrev pub balances : Wallet → ℤ
balances w = sum_by (λ u. u.pol_balance) w.users

-- The balances of all users and the reserved amounts of all withdrawals.
abbrev pub held : Wallet → ℤ
held w = balances w +ℤ sum_by reserved w.transactions

module _ (n : Numbers ℤ) (db : WalletDb) (laws : IsWalletDb db) where
  module _ (u : ℕ) (delta : ℤ) (w : Wallet) {user : User} where
    -- The change of one user's balance changes the sum by as much.
    pub balances-add_to_balance :
        HasUnique (λ (r : User). r.id) w.users
        → db.users.find (λ r. r.id == u) w.users ≡ some user
        → balances (add_to_balance n db u delta w) ≡ balances w +ℤ delta
    balances-add_to_balance ids found =
        let change =
          sum_by-update_found db.users laws.users (λ r. r.id) u
            (λ r. record r { pol_balance = r.pol_balance +ℤ delta }) w.users (λ r. r.pol_balance)
            ids found in
        omega (int_laws, ap pos_part change, ap neg_part change)

    pub add_to_balance-IsSound :
        IsSound w
        → db.users.find (λ r. r.id == u) w.users ≡ some user
        → pos 0 ≤ℤ user.pol_balance +ℤ delta
        → IsSound (add_to_balance n db u delta w)
    add_to_balance-IsSound h found enough = record {
      user_ids =
          update-HasUnique db.users laws.users (λ r. r.id) (λ r. r.id == u)
            (λ r. record r { pol_balance = r.pol_balance +ℤ delta }) w.users (λ r. refl) h.user_ids;
      transaction_ids = h.transaction_ids;
      solvent =
          update_found-All db.users laws.users (λ r. r.id) u
            (λ r. record r { pol_balance = r.pol_balance +ℤ delta }) w.users
            (λ r. pos 0 ≤ℤ r.pol_balance) h.user_ids found h.solvent enough;
      amounts = h.amounts;
    }

  with_transaction-IsSound :
      (t : Transaction) (w : Wallet)
      → IsSound w
      → pos 0 ≤ℤ t.amount
      → All (λ s. s.id ≢ t.id) w.transactions
      → IsSound (record w { transactions = db.transactions.create t w.transactions })
  with_transaction-IsSound t w h positive new = record {
    user_ids = h.user_ids;
    transaction_ids =
        create-HasUnique db.transactions laws.transactions (λ r. r.id) t w.transactions
          h.transaction_ids new;
    solvent = h.solvent;
    amounts =
        create-All db.transactions laws.transactions (λ r. pos 0 ≤ℤ r.amount) t w.transactions
          h.amounts positive;
  }

  -- Creating a withdrawal of an amount that is not negative, under a new key, leaves the wallet
  -- sound and the money held in all as it was, whether it succeeds or throws.
  pub create_withdrawal-conserves :
      (id u : ℕ) (amount : ℤ) (address : String) (w : Wallet)
      → IsSound w
      → pos 0 ≤ℤ amount
      → All (λ t. t.id ≢ id) w.transactions
      → let (_, w') = create_withdrawal n db id u amount address w in
        IsSound w' × (held w' ≡ held w)
  unfolding create_withdrawal
  create_withdrawal-conserves id u amount address w h positive new =
      elim (Option-cases (db.transactions.find (is_pending_withdrawal_of u) w.transactions)) [
        | inr (t, twice) ↦ rw (twice, create_withdrawal) (h, refl)
        | inl first ↦ elim (Option-cases (db.users.find (λ r. r.id == u) w.users)) [
          | inl nobody ↦ rw (first, nobody, create_withdrawal) (h, refl)
          | inr (user, found) ↦ elim (Bool-cases (ltb_ℤ user.pol_balance amount)) [
            | inl poor ↦ rw (first, found, poor, create_withdrawal) (h, refl)
            | inr rich ↦
                let t = new_withdrawal n db id u amount address in
                let paid = add_to_balance n db u (neg amount) w in
                let covered = not-ltb_ℤ→le user.pol_balance amount rich in
                let sound = add_to_balance-IsSound u (neg amount) w h found (omega int_laws) in
                let less = balances-add_to_balance u (neg amount) w h.user_ids found in
                let more =
                  sum_by-create db.transactions laws.transactions reserved t w.transactions in
                rw (first, found, rich, create_withdrawal)
                  (
                    with_transaction-IsSound t paid sound positive new,
                    omega (
                      int_laws,
                      ap pos_part less,
                      ap neg_part less,
                      ap pos_part more,
                      ap neg_part more,
                    ),
                  )
          ]
        ]
      ]
