-- ===== src/Accounts.antt =====
-- The balances of the users under one payment, for the handlers that sell something
-- (server/controllers/roomsController.js, server/controllers/shopController.js,
-- server/services/offerEventPurchaseService.js).
use support_block_miner.Base.Table.{
  Table, IsTable, HasUnique, sum_by, sum_by-update_found, update_found-All, update-HasUnique,
}
use support_block_miner.Base.{some, refl, ◌==◌, ◌≡◌, ℕ, List, All, ap}
use support_block_miner.Base.Int.{pos, ◌+ℤ◌, ◌≤ℤ◌, ℤ, neg, int_laws, pos_part, neg_part}
use support_block_miner.Database.{User}

-- No two users share a key, and no balance is negative.
pub record IsSolvent (users : List User) : Type 0 where
  pub ids : HasUnique (λ (r : User). r.id) users
  pub covered : All (λ r. pos 0 ≤ℤ r.pol_balance) users

abbrev pub pol_of : List User → ℤ
pol_of users = sum_by (λ r. r.pol_balance) users

-- `polBalance: { decrement: price }`
abbrev pub charge : ℤ → User → User
charge price r = record r { pol_balance = r.pol_balance +ℤ neg price }

module _ (t : Table User) (laws : IsTable t) where
  -- A payment that the balance of the user covers takes the price from the sum of the balances, and
  -- leaves the users solvent.
  pub update-charge :
      (u : ℕ) (price : ℤ) (users : List User) {user : User}
      → IsSolvent users
      → t.find (λ r. r.id == u) users ≡ some user
      → price ≤ℤ user.pol_balance
      → (pol_of (t.update (λ r. r.id == u) (charge price) users) +ℤ price ≡ pol_of users)
        × IsSolvent (t.update (λ r. r.id == u) (charge price) users)
  update-charge u price users h found enough =
      let change =
        sum_by-update_found t laws (λ r. r.id) u (charge price) users (λ r. r.pol_balance) h.ids
          found in
      (
        omega (int_laws, ap pos_part change, ap neg_part change),
        record {
          ids =
              update-HasUnique t laws (λ r. r.id) (λ r. r.id == u) (charge price) users (λ r. refl)
                h.ids;
          covered =
              update_found-All t laws (λ r. r.id) u (charge price) users
                (λ r. pos 0 ≤ℤ r.pol_balance) h.ids found h.covered (omega int_laws);
        },
      )
