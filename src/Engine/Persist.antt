-- ===== src/Engine/Persist.antt =====
-- `persistMinerProfile` (server/models/minerProfileModel.js): what a save of a miner writes.
use support_block_miner.Base.{ℕ, Bool, Option, none, some, if◌then◌else◌, ◌==◌, or_else, ◌||◌}
use support_block_miner.Engine.Numbers.{Numbers, zero_number, less}
use support_block_miner.Engine.State.{Miner}

-- The change of `polBalance` that is sent to the database for a user.
pub data BalanceWrite (Num : Type 0) : Type 0 where
  increment : ℕ → Num → BalanceWrite Num
  decrement : ℕ → Num → BalanceWrite Num

module _ {Num : Type 0} (n : Numbers Num) where
  -- `miner.balance - (miner.lastPersistedBalance ?? miner.balance)`
  abbrev pub unsaved : Miner Num → Num
  unsaved m = n.sub m.balance (or_else m.last_persisted_balance m.balance)

  -- `-delta`
  abbrev pub negated : Num → Num
  negated delta = n.sub (zero_number n) delta

  -- `Math.abs(delta) < 0.0000001`
  abbrev pub is_tiny : Num → Bool
  is_tiny delta =
      less n (if less n delta (zero_number n) then negated delta else delta) (n.ratio 1 10_000_000)

  -- The write, if there is one, and the miner after it; the user id 0 is falsy.
  unfoldable pub persist_miner_profile : Miner Num → Option (BalanceWrite Num) × Miner Num
  persist_miner_profile m =
      let delta = unsaved m in
      if m.user_id == 0 || is_tiny delta then (none, m) else (
        some (
            if less n (zero_number n) delta
            then increment m.user_id delta
            else decrement m.user_id (negated delta)),
        record m { last_persisted_balance = some m.balance },
      )
