-- ===== src/Engine/Snapshots.antt =====
-- The lists that `distributeRewards` builds for the `catch` of its callback, and the loop of that
-- `catch` (server/src/miningEngine.js).
use support_block_miner.Base.Dict.{
  Dict, lookup, lookup-insert, HasUniqueKeys, insert-HasUniqueKeys, map_option,
}
use support_block_miner.Engine.Numbers.{Numbers, zero_number}
use support_block_miner.Engine.State.{Miner, Snapshot, MinerReward, Engine}
use support_block_miner.Base.{
  Option, ℕ, List, ◌≡◌, some, if◌then◌else◌, ◌++◌, ◌∷◌, [], none, inl, inr, arith, ◌==◌,
  Option-cases, true, refl, Bool, is_some,
}
use support_block_miner.Engine.Blocks.{
  pay_entry, find_reward, Payout, pay_all, restore, roll_back, reward_of, reward_entry, credit,
}
use support_block_miner.Engine.Rewards.{pay_entry-lookup}

abbrev pub HasIds : {Num : Type 0} → Dict (Miner Num) → Type 0
HasIds {Num} ms = (i : ℕ) (m : Miner Num) → lookup i ms ≡ some m → m.id ≡ i

module _ {Num : Type 0} (n : Numbers Num) where
  -- The snapshot that the payment of an entry takes.
  abbrev pub snapped : Num → Option (Miner Num) → Option (Snapshot Num) → Option (Snapshot Num)
  snapped w none s = s
  snapped w (some m) s =
      if n.leb w (zero_number n)
      then s
      else some (record { balance = m.balance; lifetime_mined = m.lifetime_mined })

  pay_entry-snapshots :
      (b t : Num) (i : ℕ) (w : Num) (p : Payout Num) (j : ℕ)
      → lookup j (pay_entry n b t i w p).snapshots ≡ (
          if j == i
          then snapped w (lookup i p.engine.miners) (lookup i p.snapshots)
          else lookup j p.snapshots)
  unfolding pay_entry
  pay_entry-snapshots b t i w p j = elim (Option-cases (lookup i p.engine.miners)) [
    | inl absent ↦ ground arith
    | inr (m, e) ↦ ground (
      arith,
      lookup-insert j i (record { balance = m.balance; lifetime_mined = m.lifetime_mined })
          p.snapshots,
    )
  ]

  find_reward-append :
      (j : ℕ) (rs : List (MinerReward Num)) (r : MinerReward Num)
      → find_reward j (rs ++ r ∷ []) ≡ elim (find_reward j rs) [
        | some x ↦ some x
        | none ↦ if r.miner_id == j then some r else none
      ]
  unfolding find_reward
  find_reward-append j [] r = ground arith
  find_reward-append j (x ∷ rs) r = ground (arith, find_reward-append j rs r)

  abbrev pub at_entry {ℓ} : {A : Type ℓ} → (Num → A → A) → Option Num → A → A
  at_entry f none a = a
  at_entry f (some w) a = f w a

  pub pay_all-snapshots :
      (b t : Num) (entries : Dict Num) (p : Payout Num) (j : ℕ)
      → HasUniqueKeys entries
      → lookup j (pay_all n b t entries p).snapshots
        ≡ at_entry
            (λ w. snapped w (lookup j p.engine.miners))
            (lookup j entries)
            (lookup j p.snapshots)
  unfolding pay_all
  pay_all-snapshots b t [] p j h = refl
  pay_all-snapshots b t ((i, w) ∷ rest) p j h = ground (
    arith,
    pay_all-snapshots b t rest (pay_entry n b t i w p) j h.1,
    pay_entry-lookup n b t i w p j,
    pay_entry-snapshots b t i w p j,
  )

  pay_entry-HasUniqueKeys :
      (b t : Num) (i : ℕ) (w : Num) (p : Payout Num)
      → HasUniqueKeys p.snapshots
      → HasUniqueKeys (pay_entry n b t i w p).snapshots
  unfolding pay_entry
  pay_entry-HasUniqueKeys b t i w p h = elim (Option-cases (lookup i p.engine.miners)) [
    | inl absent ↦ ground arith
    | inr (m, e) ↦ ground (
      arith,
      insert-HasUniqueKeys i (record { balance = m.balance; lifetime_mined = m.lifetime_mined })
          p.snapshots h,
    )
  ]

  pub pay_all-HasUniqueKeys :
      (b t : Num) (entries : Dict Num) (p : Payout Num)
      → HasUniqueKeys p.snapshots
      → HasUniqueKeys (pay_all n b t entries p).snapshots
  unfolding pay_all
  pay_all-HasUniqueKeys b t [] p h = h
  pay_all-HasUniqueKeys b t ((i, w) ∷ rest) p h =
      pay_all-HasUniqueKeys b t rest (pay_entry n b t i w p) (pay_entry-HasUniqueKeys b t i w p h)

  pay_entry-HasIds :
      (b t : Num) (i : ℕ) (w : Num) (p : Payout Num)
      → HasIds p.engine.miners
      → HasIds (pay_entry n b t i w p).engine.miners
  pay_entry-HasIds b t i w p h j m e = elim (Option-cases (lookup i p.engine.miners)) [
    | inl absent ↦ ground (arith, pay_entry-lookup n b t i w p j, h j m)
    | inr (m', e') ↦ ground (arith, pay_entry-lookup n b t i w p j, h j m, h i m' e')
  ]

  -- Whether the payment of an entry adds a reward.
  abbrev pub rewarded : Num → Option (Miner Num) → Bool → Bool
  rewarded w none s = s
  rewarded w (some m) s = if n.leb w (zero_number n) then s else true

  pay_entry-rewards :
      (b t : Num) (i : ℕ) (w : Num) (p : Payout Num) (j : ℕ)
      → HasIds p.engine.miners
      → is_some (find_reward j (pay_entry n b t i w p).miner_rewards) ≡ (
          if j == i
          then rewarded w (lookup i p.engine.miners) (is_some (find_reward i p.miner_rewards))
          else is_some (find_reward j p.miner_rewards))
  unfolding pay_entry
  pay_entry-rewards b t i w p j h = elim (Option-cases (lookup i p.engine.miners)) [
    | inl absent ↦ ground arith
    | inr (m, e) ↦
        let reward = reward_of n b t w in
        ground (
          arith,
          h i m e,
          find_reward-append j p.miner_rewards
              (reward_entry n (n.div w t) reward w (credit n reward m)),
        )
  ]

  pub pay_all-rewards :
      (b t : Num) (entries : Dict Num) (p : Payout Num) (j : ℕ)
      → HasUniqueKeys entries
      → HasIds p.engine.miners
      → is_some (find_reward j (pay_all n b t entries p).miner_rewards)
        ≡ at_entry
            (λ w. rewarded w (lookup j p.engine.miners))
            (lookup j entries)
            (is_some (find_reward j p.miner_rewards))
  unfolding pay_all
  pay_all-rewards b t [] p j h ids = refl
  pay_all-rewards b t ((i, w) ∷ rest) p j h ids = ground (
    arith,
    pay_all-rewards b t rest (pay_entry n b t i w p) j h.1 (pay_entry-HasIds b t i w p ids),
    pay_entry-lookup n b t i w p j,
    pay_entry-rewards b t i w p j ids,
  )

  abbrev pub put_back : Snapshot Num → Miner Num → Miner Num
  put_back s m = record m { balance = s.balance; lifetime_mined = s.lifetime_mined }

  abbrev pub restored : Bool → Option (Snapshot Num) → Option (Miner Num) → Option (Miner Num)
  restored true (some s) m = map_option (put_back s) m
  restored _ _ m = m

  restore-lookup :
      (rewards : List (MinerReward Num)) (i : ℕ) (s : Snapshot Num) (e : Engine Num) (j : ℕ)
      → lookup j (restore n rewards i s e).miners ≡ (
          if j == i
          then restored (is_some (find_reward i rewards)) (some s) (lookup i e.miners)
          else lookup j e.miners)
  unfolding restore
  restore-lookup rewards i s e j = elim (Option-cases (lookup i e.miners)) [
    | inl absent ↦ ground arith
    | inr (m, h) ↦ ground (arith, lookup-insert j i (put_back s m) e.miners)
  ]

  pub roll_back-lookup :
      (rewards : List (MinerReward Num)) (d : Dict (Snapshot Num)) (e : Engine Num) (j : ℕ)
      → HasUniqueKeys d
      → lookup j (roll_back n rewards d e).miners
        ≡ restored (is_some (find_reward j rewards)) (lookup j d) (lookup j e.miners)
  unfolding roll_back
  roll_back-lookup rewards [] e j h = ground arith
  roll_back-lookup rewards ((i, s) ∷ rest) e j h = ground (
    arith,
    roll_back-lookup rewards rest (restore n rewards i s e) j h.1,
    restore-lookup rewards i s e j,
  )
