-- ===== src/Engine/State.antt =====
-- The state of `class MiningEngine` (server/src/miningEngine.js): the fields of the engine and of a
-- miner, and the records that its methods take and build.
use support_block_miner.Base.{ℕ, ◌+◌, ◌*◌, String, Bool, Option, none, some, List, []}
use support_block_miner.Base.Dict.{Dict, lookup, insert}
use support_block_miner.Engine.Numbers.{Numbers, zero_number}

-- One object in `miners`. `user_id` and `id` are only compared. `last_persisted_balance` is read
-- with `??` in the source.
pub record Miner (Num : Type 0) : Type 0 where
  pub id : ℕ
  pub user_id : ℕ
  pub wallet_address : Option String
  pub username : String
  pub rigs : Num
  pub base_hash_rate : Num
  pub active : Bool
  pub boost_multiplier : Num
  pub boost_ends_at : ℕ
  pub balance : Num
  pub last_persisted_balance : Option Num
  pub lifetime_mined : Num
  pub connected : Bool
  pub ref_code : Option String
  pub referral_count : ℕ

-- An entry of `blockHistory`.
pub record Block (Num : Type 0) : Type 0 where
  pub block_number : ℕ
  pub reward : Num
  pub miner_count : ℕ
  pub timestamp : ℕ
  pub user_rewards : Dict Num

-- An entry of `minerRewards`.
pub record MinerReward (Num : Type 0) : Type 0 where
  pub miner_id : ℕ
  pub user_id : ℕ
  pub username : String
  pub wallet_address : Option String
  pub rigs : Num
  pub base_hash_rate : Num
  pub work_accumulated : Num
  pub share_percentage : Num
  pub reward_amount : Num
  pub balance_after : Num
  pub lifetime_mined : Num

-- What `balanceSnapshot` keeps of a miner.
pub record Snapshot (Num : Type 0) : Type 0 where
  pub balance : Num
  pub lifetime_mined : Num

-- The profile that the database layer hands over. A number that is missing is a falsy one.
pub record Profile (Num : Type 0) : Type 0 where
  pub rigs : Num
  pub base_hash_rate : Num
  pub base_hash_rate_alias : Num
  pub balance : Num
  pub lifetime_mined : Num
  pub ref_code : Option String
  pub referral_count : ℕ

-- `miners_by_user_id` holds the id of the miner, since both maps of the source hold one object.
-- `persists` says whether `persistBlockRewardsCallback` is set.
pub record Engine (Num : Type 0) : Type 0 where
  pub block_number : ℕ
  pub reward_base : Num
  pub block_target : Num
  pub block_progress : Num
  pub block_duration_ms : ℕ
  pub block_started_at : ℕ
  pub next_block_at : ℕ
  pub token_price : Num
  pub total_minted : Num
  pub last_reward : Num
  pub round_work : Dict Num
  pub miners : Dict (Miner Num)
  pub miners_by_user_id : Dict ℕ
  pub last_block_at : ℕ
  pub active_miners : ℕ
  pub current_network_hash_rate : Num
  pub block_history : List (Block Num)
  pub persists : Bool

-- `constructor()`, at the time `now`
unfoldable pub new_engine : {Num : Type 0} → Numbers Num → ℕ → Engine Num
new_engine n now = record {
  block_number = 1;
  reward_base = n.ratio 30 100;
  block_target = n.ratio 100 1;
  block_progress = zero_number n;
  block_duration_ms = 10 * 60 * 1000;
  block_started_at = now;
  next_block_at = now + 10 * 60 * 1000;
  token_price = n.ratio 35 100;
  total_minted = zero_number n;
  last_reward = zero_number n;
  round_work = [];
  miners = [];
  miners_by_user_id = [];
  last_block_at = now;
  active_miners = 0;
  current_network_hash_rate = zero_number n;
  block_history = [];
  persists = Bool.false;
}

-- `setPersistBlockRewardsCallback(callback)`
unfoldable pub set_persist_block_rewards_callback : {Num : Type 0} → Bool → Engine Num → Engine Num
set_persist_block_rewards_callback callback e = record e { persists = callback }

module _ {Num : Type 0} where
  -- A change of the object that `miners.get(id)` returns.
  unfoldable pub change_miner : ℕ → (Miner Num → Miner Num) → Engine Num → Engine Num
  change_miner i f e = elim (lookup i e.miners) [
    | none ↦ e
    | some m ↦ record e { miners = insert i (f m) e.miners }
  ]

  -- `this.miners.get(id)`
  abbrev pub get_miner : ℕ → Engine Num → Option (Miner Num)
  get_miner i e = lookup i e.miners
