-- ===== src/Engine/Owners.antt =====
-- That the rounds of the engine (server/src/miningEngine.js: `tick`, `distributeRewards` and its
-- roll back) change no id, no user and no key of the maps of miners.
use support_block_miner.Base.{
  [], ◌∷◌, inl, inr, refl, ◌≡◌, arith, ℕ, Option-cases, ◌≤◌, length, sym, Bool-cases, List, leb,
}
use support_block_miner.Engine.Numbers.{Numbers, zero_number}
use support_block_miner.Engine.Blocks.{
  sweep, collect_work, pay_entry, Payout, Totals, expire_boost, count_miner, pay_all,
  distribute_rewards, total_work, start_payout, tick, restore, roll_back, find_reward,
}
use support_block_miner.Base.Dict.{
  Dict, lookup, HasUniqueKeys, map_option, insert-HasUniqueKeys, map_values,
}
use support_block_miner.Engine.State.{Engine, Miner, MinerReward, Snapshot}
use support_block_miner.Engine.Registry.{
  SameOwners, owner, SameOwners-refl, SameOwners-trans, change_miner-SameOwners,
}
use support_block_miner.Engine.Rewards.{
  pay_entry-SameRound, pay_entry-lookup, lookup-map_values, distribute_rewards-round,
}
use mathlib.Core.Path.{subst}
use support_block_miner.Engine.Snapshots.{put_back}

module _ {Num : Type 0} (n : Numbers Num) where
  sweep-lookup :
      (now : ℕ) (ms : Dict (Miner Num)) (t : Totals Num) (j : ℕ)
      → lookup j (sweep n now ms t).0 ≡ map_option (expire_boost n now) (lookup j ms)
  unfolding sweep
  sweep-lookup now [] t j = refl
  sweep-lookup now ((i, m) ∷ rest) t j =
      ground (arith, sweep-lookup now rest (count_miner n i (expire_boost n now m) t) j)

  sweep-HasUniqueKeys :
      (now : ℕ) (ms : Dict (Miner Num)) (t : Totals Num)
      → HasUniqueKeys t.round_work
      → HasUniqueKeys (sweep n now ms t).1.round_work
  unfolding sweep
  sweep-HasUniqueKeys now [] t h = h
  sweep-HasUniqueKeys now ((i, m) ∷ rest) t h =
      let m' = expire_boost n now m in
      sweep-HasUniqueKeys now rest (count_miner n i m' t) (insert-HasUniqueKeys i _ t.round_work h)

  collect_work-SameOwners : (now : ℕ) (e : Engine Num) → SameOwners e (collect_work n now e)
  unfolding collect_work
  collect_work-SameOwners now e =
      let start : Totals Num = record {
        total_hash_rate = zero_number n;
        active_miners = 0;
        round_work = e.round_work;
      } in
      record {
        owners = λ j. ground (arith, sweep-lookup now e.miners start j);
        index = refl;
        work = λ h. sweep-HasUniqueKeys now e.miners start h;
        history = λ h. h;
      }

  pay_entry-keys :
      (b t : Num) (i : ℕ) (w : Num) (p : Payout Num)
      → HasUniqueKeys p.engine.round_work
      → HasUniqueKeys (pay_entry n b t i w p).engine.round_work
  unfolding pay_entry
  pay_entry-keys b t i w p h =
      let keys = insert-HasUniqueKeys i (zero_number n) p.engine.round_work h in
      elim (Option-cases (lookup i p.engine.miners)) [
        | inl absent ↦ ground (arith, keys)
        | inr (m, e) ↦ ground (arith, keys)
      ]

  pay_entry-owner :
      (b t : Num) (i : ℕ) (w : Num) (p : Payout Num) (j : ℕ)
      → owner j (pay_entry n b t i w p).engine ≡ owner j p.engine
  pay_entry-owner b t i w p j =
      let after = pay_entry-lookup n b t i w p j in
      elim (Option-cases (lookup i p.engine.miners)) [
        | inl absent ↦ ground (arith, after)
        | inr (m, e) ↦ ground (arith, after)
      ]

  pay_entry-SameOwners :
      (b t : Num) (i : ℕ) (w : Num) (p : Payout Num)
      → SameOwners p.engine (pay_entry n b t i w p).engine
  pay_entry-SameOwners b t i w p =
      let round = pay_entry-SameRound n b t i w p in
      record {
        owners = λ j. pay_entry-owner b t i w p j;
        index = round.4;
        work = pay_entry-keys b t i w p;
        history = subst (λ h. length h ≤ 12) (sym round.1);
      }

  pay_all-SameOwners :
      (b t : Num) (entries : Dict Num) (p : Payout Num)
      → SameOwners p.engine (pay_all n b t entries p).engine
  unfolding pay_all
  pay_all-SameOwners b t [] p = SameOwners-refl p.engine
  pay_all-SameOwners b t ((i, w) ∷ rest) p =
      SameOwners-trans (pay_entry-SameOwners b t i w p)
        (pay_all-SameOwners b t rest (pay_entry n b t i w p))

  map_values-keys :
      (v : Num) (d : Dict Num) → HasUniqueKeys d → HasUniqueKeys (map_values (λ _ _. v) d)
  map_values-keys v [] h = tt
  map_values-keys v (e ∷ d) h =
      (rw (lookup-map_values (λ _. v) e.0 d, h.0) refl, map_values-keys v d h.1)

  pub distribute_rewards-SameOwners :
      (now : ℕ) (e : Engine Num) → SameOwners e (distribute_rewards n now e).0
  unfolding distribute_rewards start_payout
  distribute_rewards-SameOwners now e =
      let all = pay_all-SameOwners e.reward_base (total_work n e) e.round_work (start_payout e) in
      record {
        owners = λ j. ground (arith, all.owners j);
        index = ground (arith, all.index);
        work = λ h. ground (arith, all.work h, map_values-keys (zero_number n) e.round_work h);
        history = λ h. (distribute_rewards-round n now e).3;
      }

  tick-engine :
      (now : ℕ) (e : Engine Num) → let c = collect_work n now e in SameOwners c (tick n now e).0
  unfolding tick
  tick-engine now e =
      let c = collect_work n now e in
      let d = distribute_rewards-SameOwners now c in
      elim (Bool-cases (leb c.next_block_at now)) [
        | inl due ↦
            rw (due, tick)
              (record { owners = d.owners; index = d.index; work = d.work; history = d.history })
        | inr early ↦
            rw (early, tick)
              (record { owners = λ j. refl; index = refl; work = λ h. h; history = λ h. h })
      ]

  pub tick-SameOwners : (now : ℕ) (e : Engine Num) → SameOwners e (tick n now e).0
  tick-SameOwners now e = SameOwners-trans (collect_work-SameOwners now e) (tick-engine now e)

  restore-owner :
      (rewards : List (MinerReward Num)) (i : ℕ) (s : Snapshot Num) (e : Engine Num)
      → SameOwners e (restore n rewards i s e)
  unfolding restore
  restore-owner rewards i s e = elim (Option-cases (lookup i e.miners)) [
    | inl absent ↦ rw (absent, restore) (SameOwners-refl e)
    | inr (m, found) ↦ elim (Option-cases (find_reward i rewards)) [
      | inl unpaid ↦ rw (found, unpaid, restore) (SameOwners-refl e)
      | inr (r, paid_one) ↦
          let c = change_miner-SameOwners i (put_back n s) e (λ x. (refl, refl)) in
          rw (found, paid_one, restore)
            (record { owners = c.owners; index = c.index; work = c.work; history = c.history })
    ]
  ]

  pub roll_back-SameOwners :
      (rewards : List (MinerReward Num)) (d : Dict (Snapshot Num)) (e : Engine Num)
      → SameOwners e (roll_back n rewards d e)
  unfolding roll_back
  roll_back-SameOwners rewards [] e = SameOwners-refl e
  roll_back-SameOwners rewards ((i, s) ∷ rest) e =
      SameOwners-trans (restore-owner rewards i s e)
        (roll_back-SameOwners rewards rest (restore n rewards i s e))
