-- ===== src/Engine/Rollback.antt =====
-- What the failure of `persistBlockRewardsCallback` leaves behind (the `catch` of
-- `distributeRewards`, server/src/miningEngine.js), and what a round does to the amount that the next
-- save of a miner would write (server/models/minerProfileModel.js).
use support_block_miner.Base.Dict.{Dict, lookup, HasUniqueKeys, map_option}
use support_block_miner.Engine.Numbers.{Numbers, zero_number, IsExact}
use support_block_miner.Engine.State.{Miner, Engine}
use support_block_miner.Base.{
  Option, ℕ, ◌≡◌, some, if◌then◌else◌, none, inl, inr, arith, Option-cases, ap, ◌∙◌,
}
use support_block_miner.Engine.Blocks.{
  find_reward, Payout, pay_all, roll_back, reward_of, credit, total_work, distribute_rewards,
  start_payout, SaveRequest,
}
use support_block_miner.Engine.Rewards.{pay_all-lookup, distribute_rewards-lookup}
use support_block_miner.Engine.Persist.{unsaved}
use support_block_miner.Engine.Snapshots.{
  HasIds, roll_back-lookup, pay_all-HasUniqueKeys, pay_all-snapshots, pay_all-rewards,
}

module _ {Num : Type 0} (n : Numbers Num) where
  -- The payout of a round, as its loop leaves it.
  abbrev whole_payout : Engine Num → Payout Num
  whole_payout e = pay_all n e.reward_base (total_work n e) e.round_work (start_payout e)

  request-parts :
      (now : ℕ) (e : Engine Num) (q : SaveRequest Num)
      → (distribute_rewards n now e).1 ≡ some q
      → (q.miner_rewards ≡ (whole_payout e).miner_rewards)
        × (q.snapshots ≡ (whole_payout e).snapshots)
        × ((distribute_rewards n now e).0.miners ≡ (whole_payout e).engine.miners)
  unfolding distribute_rewards
  request-parts now e q h = ground arith

  -- What a failed save leaves of a payment: the saved balance alone has moved.
  abbrev pub charge : Num → Num → Num → Miner Num → Miner Num
  charge b t w m = record m {
    last_persisted_balance = (credit n (reward_of n b t w) m).last_persisted_balance;
  }

  abbrev pub charged : Num → Num → Option Num → Option (Miner Num) → Option (Miner Num)
  charged b t none m = m
  charged b t (some w) m = if n.leb w (zero_number n) then m else map_option (charge b t w) m

  payout-roll_back :
      (b t : Num) (entries : Dict Num) (e e' : Engine Num) (j : ℕ)
      → HasUniqueKeys entries
      → HasIds e.miners
      → let q = pay_all n b t entries (start_payout e) in
        e'.miners ≡ q.engine.miners
        → lookup j (roll_back n q.miner_rewards q.snapshots e').miners
          ≡ charged b t (lookup j entries) (lookup j e.miners)
  unfolding start_payout find_reward
  payout-roll_back b t entries e e' j h ids same =
      let p = start_payout e in
      let q = pay_all n b t entries p in
      let back =
        roll_back-lookup n q.miner_rewards q.snapshots e' j
          (pay_all-HasUniqueKeys n b t entries p tt) in
      let paid_out = ap (lookup j) same ∙ pay_all-lookup n b t entries p j h in
      let kept = pay_all-snapshots n b t entries p j h in
      let listed = pay_all-rewards n b t entries p j h ids in
      elim (Option-cases (lookup j entries)) [
        | inl absent ↦ ground (arith, back, paid_out, kept, listed)
        | inr (w, present) ↦ elim (Option-cases (lookup j e.miners)) [
          | inl nobody ↦ ground (arith, back, paid_out, kept, listed)
          | inr (m, found) ↦ ground (arith, back, paid_out, kept, listed)
        ]
      ]

  -- If the rewards of a round cannot be saved, and nothing has happened in between, the roll back
  -- restores the balance and the lifetime total of every miner that was paid, but leaves the saved
  -- balance raised by the reward; every other miner is as before the round. The work is recorded once
  -- for each miner, and each miner stands under its own id.
  pub roll_back-distribute_rewards :
      (now : ℕ) (e : Engine Num) (q : SaveRequest Num) (j : ℕ)
      → HasUniqueKeys e.round_work
      → HasIds e.miners
      → (distribute_rewards n now e).1 ≡ some q
      → lookup j (roll_back n q.miner_rewards q.snapshots (distribute_rewards n now e).0).miners
        ≡ charged e.reward_base (total_work n e) (lookup j e.round_work) (lookup j e.miners)
  roll_back-distribute_rewards now e q j h ids sent =
      let (rewards, snaps, same) = request-parts now e q sent in
      rw (rewards, snaps)
        (payout-roll_back e.reward_base (total_work n e) e.round_work e
          (distribute_rewards n now e).0 j h ids same)

  credit-unsaved : (r : Num) (m : Miner Num) → IsExact n → unsaved n (credit n r m) ≡ unsaved n m
  credit-unsaved r m exact = elim (Option-cases m.last_persisted_balance) [
    | inl e ↦ rw (e, exact.add_sub_cancel m.balance r) (exact.sub_add_add m.balance m.balance r)
    | inr (l, e) ↦ rw e (exact.sub_add_add m.balance l r)
  ]

  -- With exact arithmetic a round leaves the amount that the next save of any miner would write as it
  -- was: what a round pays reaches the database through the callback alone. The work is recorded once
  -- for each miner.
  pub distribute_rewards-unsaved :
      (now : ℕ) (e : Engine Num) (j : ℕ)
      → IsExact n
      → HasUniqueKeys e.round_work
      → map_option (unsaved n) (lookup j (distribute_rewards n now e).0.miners)
        ≡ map_option (unsaved n) (lookup j e.miners)
  distribute_rewards-unsaved now e j exact h =
      let after = distribute_rewards-lookup n now e j h in
      elim (Option-cases (lookup j e.miners)) [
        | inl absent ↦ elim (Option-cases (lookup j e.round_work)) [
          | inl idle ↦ ground (arith, after)
          | inr (w, worked) ↦ ground (arith, after)
        ]
        | inr (m, found) ↦ elim (Option-cases (lookup j e.round_work)) [
          | inl idle ↦ ground (arith, after)
          | inr (w, worked) ↦
              ground (
                arith,
                after,
                credit-unsaved (reward_of n e.reward_base (total_work n e) w) m exact,
              )
        ]
      ]
