-- ===== src/Engine/Rewards.antt =====
-- What a round of `distributeRewards` (server/src/miningEngine.js) does to each miner, to the work of
-- the round and to the history of blocks.
use support_block_miner.Base.{
  ℕ, ◌≡◌, refl, inl, inr, Option, none, some, [], ◌∷◌, if◌then◌else◌, ◌==◌, Option-cases, arith,
  List, ◌+◌, length, ◌≤◌, length-take_le, or_else,
}
use support_block_miner.Base.Dict.{
  Dict, lookup, lookup-insert, HasUniqueKeys, map_values, map_option,
}
use support_block_miner.Engine.Numbers.{Numbers, zero_number}
use support_block_miner.Engine.State.{Miner, Engine, Block}
use support_block_miner.Engine.Blocks.{
  Payout, reward_of, credit, pay_entry, pay_all, distribute_rewards, total_work, start_payout,
}

pub lookup-map_values {ℓ κ} :
    {V : Type ℓ} {W : Type κ} (f : V → W) (j : ℕ) (d : Dict V)
    → lookup j (map_values (λ _ v. f v) d) ≡ map_option f (lookup j d)
lookup-map_values f j [] = refl
lookup-map_values f j (e ∷ d) = ground (arith, lookup-map_values f j d)

-- The number of the first block of a history.
abbrev pub latest_block : {Num : Type 0} → List (Block Num) → Option ℕ
latest_block [] = none
latest_block (b ∷ _) = some b.block_number

module _ {Num : Type 0} (n : Numbers Num) where
  -- A miner with the share `block_reward * (w / total)` in its three amounts; a saved balance that is
  -- missing counts as what the balance was.
  abbrev pub rewarded : Num → Num → Num → Miner Num → Miner Num
  rewarded block_reward total w m =
      let share = n.mul block_reward (n.div w total) in
      let balance = n.add m.balance share in
      record m {
        balance = balance;
        last_persisted_balance =
            some (n.add (or_else m.last_persisted_balance (n.sub balance share)) share);
        lifetime_mined = n.add m.lifetime_mined share;
      }

  -- What a round pays for the work `w`: nothing, unless it is positive.
  abbrev pub paid : Num → Num → Num → Option (Miner Num) → Option (Miner Num)
  paid block_reward total w m =
      if n.leb w (zero_number n) then m else map_option (rewarded block_reward total w) m

  -- The same for a miner of whom the round may have no work.
  abbrev pub settled : Num → Num → Option Num → Option (Miner Num) → Option (Miner Num)
  settled block_reward total none m = m
  settled block_reward total (some w) m = paid block_reward total w m

  pub pay_entry-lookup :
      (b t : Num) (i : ℕ) (w : Num) (p : Payout Num) (j : ℕ)
      → lookup j (pay_entry n b t i w p).engine.miners
        ≡ (if j == i then paid b t w (lookup i p.engine.miners) else lookup j p.engine.miners)
  unfolding pay_entry
  pay_entry-lookup b t i w p j = elim (Option-cases (lookup i p.engine.miners)) [
    | inl absent ↦ ground arith
    | inr (m, e) ↦
        ground (arith, lookup-insert j i (credit n (reward_of n b t w) m) p.engine.miners)
  ]

  pub pay_all-lookup :
      (b t : Num) (entries : Dict Num) (p : Payout Num) (j : ℕ)
      → HasUniqueKeys entries
      → lookup j (pay_all n b t entries p).engine.miners
        ≡ settled b t (lookup j entries) (lookup j p.engine.miners)
  unfolding pay_all
  pay_all-lookup b t [] p j h = refl
  pay_all-lookup b t ((i, w) ∷ rest) p j h =
      ground
        (arith, pay_all-lookup b t rest (pay_entry n b t i w p) j h.1, pay_entry-lookup b t i w p j)

  pay_entry-work :
      (b t : Num) (i : ℕ) (w : Num) (p : Payout Num) (j : ℕ)
      → lookup j (pay_entry n b t i w p).engine.round_work
        ≡ (if j == i then some (zero_number n) else lookup j p.engine.round_work)
  unfolding pay_entry
  pay_entry-work b t i w p j = elim (Option-cases (lookup i p.engine.miners)) [
    | inl absent ↦ ground (arith, lookup-insert j i (zero_number n) p.engine.round_work)
    | inr (m, e) ↦ ground (arith, lookup-insert j i (zero_number n) p.engine.round_work)
  ]

  abbrev cleared : Option Num → Option Num → Option Num
  cleared none w = w
  cleared (some _) w = some (zero_number n)

  pay_all-work :
      (b t : Num) (entries : Dict Num) (p : Payout Num) (j : ℕ)
      → lookup j (pay_all n b t entries p).engine.round_work
        ≡ cleared (lookup j entries) (lookup j p.engine.round_work)
  unfolding pay_all
  pay_all-work b t [] p j = refl
  pay_all-work b t ((i, w) ∷ rest) p j =
      ground (arith, pay_all-work b t rest (pay_entry n b t i w p) j, pay_entry-work b t i w p j)

  -- The fields that the loop over the miners leaves alone.
  abbrev pub SameRound : Engine Num → Engine Num → Type 0
  SameRound e e' =
      (e'.block_number ≡ e.block_number)
      × (e'.block_history ≡ e.block_history)
      × (e'.block_duration_ms ≡ e.block_duration_ms)
      × (e'.persists ≡ e.persists)
      × (e'.miners_by_user_id ≡ e.miners_by_user_id)

  pub pay_entry-SameRound :
      (b t : Num) (i : ℕ) (w : Num) (p : Payout Num)
      → SameRound p.engine (pay_entry n b t i w p).engine
  unfolding pay_entry
  pay_entry-SameRound b t i w p = elim (Option-cases (lookup i p.engine.miners)) [
    | inl absent ↦ ground arith
    | inr (m, e) ↦ ground arith
  ]

  pub pay_all-SameRound :
      (b t : Num) (entries : Dict Num) (p : Payout Num)
      → SameRound p.engine (pay_all n b t entries p).engine
  unfolding pay_all
  pay_all-SameRound b t [] p = ground arith
  pay_all-SameRound b t ((i, w) ∷ rest) p =
      ground
        (arith, pay_all-SameRound b t rest (pay_entry n b t i w p), pay_entry-SameRound b t i w p)

  -- A round pays each miner its share of the block reward once: with work above 0 in the round the
  -- miner's balance, its lifetime total and its saved balance all grow by the reward times its work
  -- over the total work, and every other miner is left as it was, as are all miners of a round whose
  -- total work is not above 0. The work is recorded once for each miner.
  pub distribute_rewards-lookup :
      (now : ℕ) (e : Engine Num) (j : ℕ)
      → HasUniqueKeys e.round_work
      → lookup j (distribute_rewards n now e).0.miners ≡ (
          if n.leb (total_work n e) (zero_number n)
          then lookup j e.miners
          else settled e.reward_base (total_work n e) (lookup j e.round_work) (lookup j e.miners))
  unfolding distribute_rewards
  distribute_rewards-lookup now e j h =
      ground
        (arith, pay_all-lookup e.reward_base (total_work n e) e.round_work (start_payout e) j h)

  -- After a round no miner has work left, whether the round paid anything or not, and no entry has
  -- come or gone.
  pub distribute_rewards-work :
      (now : ℕ) (e : Engine Num) (j : ℕ)
      → lookup j (distribute_rewards n now e).0.round_work
        ≡ map_option (λ _. zero_number n) (lookup j e.round_work)
  unfolding distribute_rewards
  distribute_rewards-work now e j = ground (
    arith,
    pay_all-work e.reward_base (total_work n e) e.round_work (start_payout e) j,
    lookup-map_values (λ _. zero_number n) j e.round_work,
  )

  -- On both branches a round closes the current block: the number goes up by one, the next block is
  -- due one block duration after `now`, and the history begins with the closed block, the last twelve
  -- of it at most.
  pub distribute_rewards-round :
      (now : ℕ) (e : Engine Num)
      → let e' = (distribute_rewards n now e).0 in
        (e'.block_number ≡ e.block_number + 1)
        × (e'.block_started_at ≡ now)
        × (e'.next_block_at ≡ now + e.block_duration_ms)
        × (length e'.block_history ≤ 12)
        × (latest_block e'.block_history ≡ some e.block_number)
  unfolding distribute_rewards
  distribute_rewards-round now e = ground (
    arith,
    pay_all-SameRound e.reward_base (total_work n e) e.round_work (start_payout e),
    length-take_le 11 e.block_history,
    length-take_le 11
        (pay_all n e.reward_base (total_work n e) e.round_work
          (start_payout e)).engine.block_history,
  )
