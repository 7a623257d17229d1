-- ===== src/Engine/Blocks.antt =====
-- The mining rounds of `MiningEngine` (server/src/miningEngine.js): `tick`, `distributeRewards` and
-- the roll back that runs when the rewards could not be saved. `Date.now()` is the argument `now`;
-- one call of a method reads the clock once.
use support_block_miner.Base.{
  ℕ, ◌+◌, ◌-◌, Bool, true, false, not, ◌&&◌, Option, none, some, List, [], ◌∷◌, if◌then◌else◌, ltb,
  leb, ◌==◌, or_else, take, ◌++◌,
}
use support_block_miner.Base.Dict.{Dict, lookup, insert, map_values}
use support_block_miner.Engine.Numbers.{Numbers, zero_number, less, min_number}
use support_block_miner.Engine.State.{Miner, Block, MinerReward, Snapshot, Engine, change_miner}
use support_block_miner.Engine.Miners.{get_miner_hash_rate}

-- What the loop of `distributeRewards` has built so far.
pub record Payout (Num : Type 0) : Type 0 where
  pub engine : Engine Num
  pub miner_rewards : List (MinerReward Num)
  pub user_rewards : Dict Num
  pub snapshots : Dict (Snapshot Num)

-- What `persistBlockRewardsCallback` is called with, and the snapshot that its failure goes back to.
pub record SaveRequest (Num : Type 0) : Type 0 where
  pub block_number : ℕ
  pub block_reward : Num
  pub total_work : Num
  pub miner_rewards : List (MinerReward Num)
  pub snapshots : Dict (Snapshot Num)
  pub now : ℕ

-- The running totals of `tick`'s loop.
pub record Totals (Num : Type 0) : Type 0 where
  pub total_hash_rate : Num
  pub active_miners : ℕ
  pub round_work : Dict Num

abbrev pub history_limit : ℕ
history_limit = 12

module _ {Num : Type 0} where
  -- `finalizeBlockDistribution`, whose arguments the source does not read
  unfoldable pub finalize_block_distribution : Numbers Num → ℕ → Engine Num → Engine Num
  finalize_block_distribution n now e = record e {
    block_number = e.block_number + 1;
    block_progress = zero_number n;
    last_block_at = now;
    block_started_at = now;
    next_block_at = now + e.block_duration_ms;
  }

  -- `blockHistory.unshift(b)`, and the cut to 12 entries
  unfoldable pub record_block : Block Num → Engine Num → Engine Num
  record_block b e = record e { block_history = take history_limit (b ∷ e.block_history) }

  abbrev pub clear_work : Numbers Num → ℕ → Engine Num → Engine Num
  clear_work n i e = record e { round_work = insert i (zero_number n) e.round_work }

  unfoldable pub find_reward : ℕ → List (MinerReward Num) → Option (MinerReward Num)
  find_reward i [] = none
  find_reward i (r ∷ rs) = if r.miner_id == i then some r else find_reward i rs

  unfoldable pub start_payout : Engine Num → Payout Num
  start_payout e = record { engine = e; miner_rewards = []; user_rewards = []; snapshots = [] }

module _ {Num : Type 0} (n : Numbers Num) where
  -- `[...this.roundWork.values()].reduce((sum, value) => sum + value, 0)`
  abbrev pub sum_work : Num → Dict Num → Num
  sum_work sum [] = sum
  sum_work sum ((_, w) ∷ d) = sum_work (n.add sum w) d

  unfoldable pub total_work : Engine Num → Num
  total_work e = sum_work (zero_number n) e.round_work

  -- `blockReward * (work / totalWork)`
  abbrev pub reward_of : Num → Num → Num → Num
  reward_of block_reward total work = n.mul block_reward (n.div work total)

  abbrev pub credit : Num → Miner Num → Miner Num
  credit reward m =
      let balance = n.add m.balance reward in
      record m {
        balance = balance;
        last_persisted_balance =
            some (n.add (or_else m.last_persisted_balance (n.sub balance reward)) reward);
        lifetime_mined = n.add m.lifetime_mined reward;
      }

  abbrev pub reward_entry : Num → Num → Num → Miner Num → MinerReward Num
  reward_entry share reward work m = record {
    miner_id = m.id;
    user_id = m.user_id;
    username = m.username;
    wallet_address = m.wallet_address;
    rigs = m.rigs;
    base_hash_rate = m.base_hash_rate;
    work_accumulated = work;
    share_percentage = n.mul share (n.ratio 100 1);
    reward_amount = reward;
    balance_after = m.balance;
    lifetime_mined = m.lifetime_mined;
  }

  -- One round of the loop over `roundWork.entries()`, where the miner and its work are known.
  unfoldable pub pay_miner : Num → Num → ℕ → Num → Miner Num → Payout Num → Payout Num
  unfolding change_miner
  pay_miner block_reward total i work m p =
      let reward = reward_of block_reward total work in
      let m' = credit reward m in
      let e = change_miner i (credit reward) p.engine in
      record p {
        engine = clear_work n i (record e { total_minted = n.add e.total_minted reward });
        miner_rewards = p.miner_rewards ++ reward_entry (n.div work total) reward work m' ∷ [];
        user_rewards = insert m.user_id reward p.user_rewards;
        snapshots =
            insert i (record { balance = m.balance; lifetime_mined = m.lifetime_mined })
              p.snapshots;
      }

  unfoldable pub pay_entry : Num → Num → ℕ → Num → Payout Num → Payout Num
  unfolding pay_miner
  pay_entry block_reward total i work p = elim (lookup i p.engine.miners) [
    | none ↦ record p { engine = clear_work n i p.engine }
    | some m ↦
        if n.leb work (zero_number n)
        then record p { engine = clear_work n i p.engine }
        else pay_miner block_reward total i work m p
  ]

  unfoldable pub pay_all : Num → Num → Dict Num → Payout Num → Payout Num
  pay_all block_reward total [] p = p
  pay_all block_reward total ((i, work) ∷ rest) p =
      pay_all block_reward total rest (pay_entry block_reward total i work p)

  abbrev pub idle_block : ℕ → Engine Num → Block Num
  idle_block now e = record {
    block_number = e.block_number;
    reward = zero_number n;
    miner_count = e.active_miners;
    timestamp = now;
    user_rewards = [];
  }

  -- The branch of `distributeRewards` for a round without work.
  unfoldable pub distribute_nothing : ℕ → Engine Num → Engine Num
  unfolding record_block finalize_block_distribution
  distribute_nothing now e =
      let cleared = record e {
        round_work = map_values (λ _ _. zero_number n) e.round_work;
        last_reward = zero_number n;
      } in
      finalize_block_distribution n now (record_block (idle_block now e) cleared)

  abbrev pub is_empty {ℓ} : {A : Type ℓ} → List A → Bool
  is_empty [] = true
  is_empty (_ ∷ _) = false

  -- The branch with work, and what is handed to the callback, if one is set and any miner was paid.
  unfoldable pub distribute_work : ℕ → Engine Num → Engine Num × Option (SaveRequest Num)
  unfolding record_block finalize_block_distribution start_payout
  distribute_work now e =
      let reward = e.reward_base in
      let total = total_work e in
      let p = pay_all reward total e.round_work (start_payout e) in
      let block : Block Num = record {
        block_number = e.block_number;
        reward = reward;
        miner_count = e.active_miners;
        timestamp = now;
        user_rewards = p.user_rewards;
      } in
      let recorded = record_block block p.engine in
      (
        finalize_block_distribution n now (record recorded { last_reward = reward }),
        if e.persists && not (is_empty p.miner_rewards)
            then some (record {
              block_number = e.block_number;
              block_reward = reward;
              total_work = total;
              miner_rewards = p.miner_rewards;
              snapshots = p.snapshots;
              now = now;
            })
            else none,
      )

  unfoldable pub distribute_rewards : ℕ → Engine Num → Engine Num × Option (SaveRequest Num)
  unfolding distribute_nothing distribute_work
  distribute_rewards now e =
      if n.leb (total_work e) (zero_number n)
      then (distribute_nothing now e, none)
      else distribute_work now e

  -- One round of the `catch` of the callback, which runs later, on the engine of that time.
  unfoldable pub restore : List (MinerReward Num) → ℕ → Snapshot Num → Engine Num → Engine Num
  unfolding change_miner find_reward
  restore rewards i s e = elim (lookup i e.miners) [
    | none ↦ e
    | some m ↦ elim (find_reward i rewards) [
      | none ↦ e
      | some r ↦
          let e' =
            change_miner i
              (λ x. record x { balance = s.balance; lifetime_mined = s.lifetime_mined }) e in
          record e' { total_minted = n.sub e'.total_minted r.reward_amount }
    ]
  ]

  unfoldable pub roll_back : List (MinerReward Num) → Dict (Snapshot Num) → Engine Num → Engine Num
  roll_back rewards [] e = e
  roll_back rewards ((i, s) ∷ rest) e = roll_back rewards rest (restore rewards i s e)

  abbrev pub expire_boost : ℕ → Miner Num → Miner Num
  expire_boost now m =
      if ltb 0 m.boost_ends_at && leb m.boost_ends_at now
      then record m { boost_multiplier = n.ratio 1 1; boost_ends_at = 0 }
      else m

  abbrev pub count_miner : ℕ → Miner Num → Totals Num → Totals Num
  count_miner i m t =
      let rate = get_miner_hash_rate n m in
      record {
        total_hash_rate = n.add t.total_hash_rate rate;
        active_miners =
            if less n (zero_number n) rate then t.active_miners + 1 else t.active_miners;
        round_work =
            insert i (n.add (or_else (lookup i t.round_work) (zero_number n)) rate) t.round_work;
      }

  -- The loop of `tick` over `miners.entries()`.
  unfoldable pub sweep : ℕ → Dict (Miner Num) → Totals Num → Dict (Miner Num) × Totals Num
  sweep now [] t = ([], t)
  sweep now ((i, m) ∷ rest) t =
      let m' = expire_boost now m in
      let (rest', t') = sweep now rest (count_miner i m' t) in ((i, m') ∷ rest', t')

  unfoldable pub collect_work : ℕ → Engine Num → Engine Num
  collect_work now e =
      let start : Totals Num = record {
        total_hash_rate = zero_number n;
        active_miners = 0;
        round_work = e.round_work;
      } in
      let (ms, t) = sweep now e.miners start in
      record e {
        miners = ms;
        round_work = t.round_work;
        current_network_hash_rate = t.total_hash_rate;
        active_miners = t.active_miners;
      }

  -- `Math.min(blockTarget, (elapsed / blockDurationMs) * blockTarget)`; a start in the future counts
  -- as no time at all, as `-` stops at 0.
  abbrev pub progress : ℕ → Engine Num → Num
  progress now e =
      let elapsed = n.ratio (now - e.block_started_at) 1 in
      min_number n e.block_target
        (n.mul (n.div elapsed (n.ratio e.block_duration_ms 1)) e.block_target)

  unfoldable pub tick : ℕ → Engine Num → Engine Num × Option (SaveRequest Num)
  tick now e =
      let collected = collect_work now e in
      let (closed, request) =
        if leb collected.next_block_at now
        then distribute_rewards now collected
        else (collected, none) in
      (record closed { block_progress = progress now closed }, request)
