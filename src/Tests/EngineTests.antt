-- ===== src/Tests/EngineTests.antt =====
-- Runs of the mining engine (server/src/miningEngine.js), and its theorems at those inputs.
use support_block_miner.Base.{
  none, some, true, [], ◌∷◌, refl, ◌==◌, ◌+◌, ◌-◌, ◌*◌, ◌≡◌, arith, ℕ, ◌/◌, leb, ◌≤◌, if◌then◌else◌,
  length,
}
use support_block_miner.Engine.Numbers.{Numbers, IsExact}
use support_block_miner.Engine.State.{Miner, Engine, new_engine}
use support_block_miner.Engine.Blocks.{
  distribute_rewards, total_work, pay_all, roll_back, tick, pay_entry, SaveRequest, start_payout,
}
use support_block_miner.Base.Dict.{map_values, HasUniqueKeys, lookup, map_option}
use support_block_miner.Engine.Snapshots.{HasIds}
use support_block_miner.Engine.Miners.{create_or_get_miner}
use support_block_miner.Engine.Registry.{IsRegistered}
use support_block_miner.Engine.Rewards.{
  settled, distribute_rewards-work, latest_block, distribute_rewards-lookup,
  distribute_rewards-round,
}
use support_block_miner.Engine.Persist.{unsaved}
use support_block_miner.Engine.Reach.{Reach, engine-IsRegistered, next, here, join, advance}
use support_block_miner.Engine.Rollback.{
  charged, distribute_rewards-unsaved, roll_back-distribute_rewards,
}

-- Numbers as counts of hundredths.
abbrev hundredths : Numbers ℕ
hundredths = record {
  ratio = λ p q. 100 * p / q;
  add = λ a b. a + b;
  sub = λ a b. a - b;
  mul = λ a b. a * b / 100;
  div = λ a b. 100 * a / b;
  leb = leb;
  falsy = λ a. a == 0;
}

hundredths-IsExact : IsExact hundredths
hundredths-IsExact = record {
  add_sub_cancel = λ a b. omega arith;
  sub_add_add = λ a b r. omega arith;
}

abbrev miner : ℕ → ℕ → ℕ → Miner ℕ
miner i u balance = record {
  id = i;
  user_id = u;
  wallet_address = none;
  username = "miner";
  rigs = 100;
  base_hash_rate = 1000;
  active = true;
  boost_multiplier = 100;
  boost_ends_at = 0;
  balance = balance;
  last_persisted_balance = some balance;
  lifetime_mined = 0;
  connected = true;
  ref_code = none;
  referral_count = 0;
}

-- Two miners with work 100 and 300, and one without.
abbrev busy : Engine ℕ
busy = record {
  block_number = 7;
  reward_base = 400;
  block_target = 10_000;
  block_progress = 0;
  block_duration_ms = 600_000;
  block_started_at = 0;
  next_block_at = 600_000;
  token_price = 35;
  total_minted = 0;
  last_reward = 0;
  round_work = (1, 100) ∷ (2, 300) ∷ (3, 0) ∷ [];
  miners = (1, miner 1 11 50) ∷ (2, miner 2 12 0) ∷ (3, miner 3 13 9) ∷ [];
  miners_by_user_id = (11, 1) ∷ (12, 2) ∷ (13, 3) ∷ [];
  last_block_at = 0;
  active_miners = 2;
  current_network_hash_rate = 0;
  block_history = [];
  persists = true;
}

shares :
    map_values (λ _ m. m.balance) (distribute_rewards hundredths 600_000 busy).0.miners
    ≡ (1, 150) ∷ (2, 300) ∷ (3, 9) ∷ []
unfolding distribute_rewards total_work pay_all pay_entry
shares = refl

busy-keys : HasUniqueKeys busy.round_work
busy-keys = ground arith

busy-HasIds : HasIds busy.miners
busy-HasIds i m found = ground arith

distribute_rewards-lookup_example :
    lookup 2 (distribute_rewards hundredths 600_000 busy).0.miners ≡ (
      if leb (total_work hundredths busy) 0
      then lookup 2 busy.miners
      else settled hundredths 400 (total_work hundredths busy) (some 300) (lookup 2 busy.miners))
distribute_rewards-lookup_example = distribute_rewards-lookup hundredths 600_000 busy 2 busy-keys

distribute_rewards-work_example :
    lookup 2 (distribute_rewards hundredths 600_000 busy).0.round_work ≡ some 0
distribute_rewards-work_example = distribute_rewards-work hundredths 600_000 busy 2

distribute_rewards-round_example :
    let e' = (distribute_rewards hundredths 600_000 busy).0 in
    (e'.block_number ≡ 8)
    × (e'.block_started_at ≡ 600_000)
    × (e'.next_block_at ≡ 1_200_000)
    × (length e'.block_history ≤ 12)
    × (latest_block e'.block_history ≡ some 7)
distribute_rewards-round_example = distribute_rewards-round hundredths 600_000 busy

-- What the callback of the round is given.
request : SaveRequest ℕ
unfolding total_work pay_all pay_entry
request =
    let p = pay_all hundredths 400 400 busy.round_work (start_payout busy) in
    record {
      block_number = 7;
      block_reward = 400;
      total_work = 400;
      miner_rewards = p.miner_rewards;
      snapshots = p.snapshots;
      now = 600_000;
    }

roll_back-distribute_rewards_example :
    lookup 2
      (roll_back hundredths request.miner_rewards request.snapshots
        (distribute_rewards hundredths 600_000 busy).0).miners
    ≡ charged hundredths 400 (total_work hundredths busy) (some 300) (lookup 2 busy.miners)
unfolding distribute_rewards total_work request
roll_back-distribute_rewards_example =
    roll_back-distribute_rewards hundredths 600_000 busy request 2 busy-keys busy-HasIds refl

distribute_rewards-unsaved_example :
    map_option (unsaved hundredths) (lookup 2 (distribute_rewards hundredths 600_000 busy).0.miners)
    ≡ some 0
distribute_rewards-unsaved_example =
    distribute_rewards-unsaved hundredths 600_000 busy 2 hundredths-IsExact busy-keys

-- Two users join, and the first round closes.
abbrev joined : Engine ℕ
joined = (create_or_get_miner hundredths 5 "Miner-5" 31 none none none (new_engine hundredths 0)).0

joined-Reach : Reach hundredths (new_engine hundredths 0) (tick hundredths 600_000 joined).0
unfolding new_engine
joined-Reach =
    next
      (next here (join 5 "Miner-5" 31 none none none (new_engine hundredths 0) (omega arith) refl))
      (advance 600_000 joined)

engine-IsRegistered_example : IsRegistered (tick hundredths 600_000 joined).0
engine-IsRegistered_example = engine-IsRegistered hundredths 0 joined-Reach
