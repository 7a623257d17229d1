-- ===== src/Engine/Miners.antt =====
-- The methods of `MiningEngine` on one miner: registration, connection, boosts and rigs
-- (server/src/miningEngine.js), and `applyUserBalanceDelta` (server/src/runtime/miningRuntime.js).
-- `Date.now()` and the id that `uuidv4()` draws are arguments, and so is the text of an id's first
-- five characters.
use support_block_miner.Base.{
  ℕ, ◌+◌, String, Bool, true, not, Option, none, some, if◌then◌else◌, ◌==◌, or_else,
}
use support_block_miner.Base.Dict.{lookup, insert}
use support_block_miner.Engine.Numbers.{Numbers, zero_number, or_number, less}
use support_block_miner.Engine.State.{Miner, Profile, Engine, change_miner, get_miner}

-- The outcome `{ ok, message }` of the two purchases; a message that quotes a price carries it.
pub data Purchase (Num : Type 0) : Type 0 where
  miner_not_found : Purchase Num
  too_poor : Num → Purchase Num
  bought : Purchase Num

module _ {Num : Type 0} where
  -- The object that `findMinerByUserId` returns, by its id in `miners`; the user id 0 is falsy.
  unfoldable pub find_miner_by_user_id : ℕ → Engine Num → Option ℕ
  find_miner_by_user_id u e = if u == 0 then none else lookup u e.miners_by_user_id

  unfoldable pub set_connected : ℕ → Bool → Engine Num → Engine Num
  unfolding change_miner
  set_connected i connected e = change_miner i (λ m. record m { connected = connected }) e

  unfoldable pub set_active : ℕ → Bool → Engine Num → Engine Num
  unfolding change_miner
  set_active i active e = change_miner i (λ m. record m { active = active }) e

  unfoldable pub set_wallet : ℕ → Option String → Engine Num → Engine Num
  unfolding change_miner
  set_wallet i address e = change_miner i (λ m. record m { wallet_address = address }) e

module _ {Num : Type 0} (n : Numbers Num) where
  -- The larger of the balance in memory and that of the database wins.
  abbrev pub sync_balance : Profile Num → Miner Num → Miner Num
  sync_balance p m =
      let db_balance = or_number n p.balance (zero_number n) in
      if less n m.balance db_balance
      then record m { balance = db_balance; last_persisted_balance = some db_balance }
      else m

  abbrev pub reload_profile : Profile Num → Miner Num → Miner Num
  reload_profile p m = sync_balance p (record m {
    rigs = or_number n p.rigs (n.ratio 1 1);
    base_hash_rate = or_number n p.base_hash_rate (zero_number n);
    ref_code = p.ref_code;
    referral_count = p.referral_count;
  })

  -- `reloadMinerProfile(userId)`; `loaded` is what the profile loader gives, if one is set. The
  -- messages to the sockets change no state.
  unfoldable pub reload_miner_profile : Option (Profile Num) → ℕ → Engine Num → Engine Num
  unfolding find_miner_by_user_id change_miner
  reload_miner_profile none u e = e
  reload_miner_profile (some p) u e = elim (find_miner_by_user_id u e) [
    | none ↦ e
    | some i ↦ change_miner i (reload_profile p) e
  ]

  abbrev pub or_alias : Profile Num → Num
  or_alias p = or_number n (or_number n p.base_hash_rate p.base_hash_rate_alias) (zero_number n)

  abbrev pub rejoin : Option String → Option String → Option (Profile Num) → Miner Num → Miner Num
  rejoin username wallet profile m =
      let named = record m { username = or_else username m.username } in
      let linked = record named {
        wallet_address = elim wallet [ none ↦ m.wallet_address | some w ↦ some w ];
      } in
      elim profile [
        | none ↦ linked
        | some p ↦ sync_balance p (record linked {
          rigs = or_number n p.rigs (n.ratio 1 1);
          base_hash_rate = or_alias p;
          ref_code = p.ref_code;
          referral_count = p.referral_count;
        })
      ]

  abbrev pub read {ℓ} : {A : Type ℓ} → (Profile Num → A) → A → Option (Profile Num) → A
  read f d none = d
  read f d (some p) = f p

  abbrev pub new_miner :
      ℕ → String → ℕ → Option String → Option String → Option (Profile Num) → Miner Num
  new_miner i default_name u username wallet profile = record {
    id = i;
    user_id = u;
    wallet_address = wallet;
    username = or_else username default_name;
    rigs = read (λ p. or_number n p.rigs (n.ratio 1 1)) (n.ratio 1 1) profile;
    base_hash_rate = read or_alias (zero_number n) profile;
    active = true;
    boost_multiplier = n.ratio 1 1;
    boost_ends_at = 0;
    balance = read (λ p. or_number n p.balance (zero_number n)) (zero_number n) profile;
    last_persisted_balance =
        some (read (λ p. or_number n p.balance (zero_number n)) (zero_number n) profile);
    lifetime_mined =
        read (λ p. or_number n p.lifetime_mined (zero_number n)) (zero_number n) profile;
    connected = true;
    ref_code = read (λ p. p.ref_code) none profile;
    referral_count = read (λ p. p.referral_count) 0 profile;
  }

  -- `createOrGetMiner({ userId, username, walletAddress, profile })`: the engine and the id of the
  -- miner. `i` and `default_name` are the new id and `Miner-` with its first five characters; an
  -- empty text counts as none.
  unfoldable pub create_or_get_miner :
      ℕ
      → String
      → ℕ
      → Option String
      → Option String
      → Option (Profile Num)
      → Engine Num
      → Engine Num × ℕ
  unfolding find_miner_by_user_id change_miner
  create_or_get_miner i default_name u username wallet profile e =
      elim (find_miner_by_user_id u e) [
        | some old ↦ (change_miner old (rejoin username wallet profile) e, old)
        | none ↦ (
          record e {
            miners = insert i (new_miner i default_name u username wallet profile) e.miners;
            miners_by_user_id = insert u i e.miners_by_user_id;
            round_work = insert i (zero_number n) e.round_work;
          },
          i,
        )
      ]

  abbrev pub boost_cost : Num
  boost_cost = n.ratio 35 100

  abbrev boost_ms : ℕ
  boost_ms = 30000

  unfoldable pub apply_boost : ℕ → ℕ → Engine Num → Engine Num × Purchase Num
  unfolding change_miner
  apply_boost i now e = elim (get_miner i e) [
    | none ↦ (e, miner_not_found)
    | some m ↦ if less n m.balance boost_cost then (e, too_poor boost_cost) else (
      change_miner i
          (λ x. record x {
            balance = n.sub x.balance boost_cost;
            boost_multiplier = n.ratio 125 100;
            boost_ends_at = now + boost_ms;
          })
          e,
      bought,
    )
  ]

  -- `2 + (miner.rigs - 1) * 0.8`
  abbrev pub rig_cost : Num → Num
  rig_cost rigs = n.add (n.ratio 2 1) (n.mul (n.sub rigs (n.ratio 1 1)) (n.ratio 8 10))

  unfoldable pub upgrade_rig : ℕ → Engine Num → Engine Num × Purchase Num
  unfolding change_miner
  upgrade_rig i e = elim (get_miner i e) [
    | none ↦ (e, miner_not_found)
    | some m ↦
        let cost = rig_cost m.rigs in
        if less n m.balance cost then (e, too_poor cost) else (
          change_miner i
              (λ x. record x {
                balance = n.sub x.balance cost;
                rigs = n.add x.rigs (n.ratio 1 1);
                base_hash_rate = n.add x.base_hash_rate (n.ratio 18 1);
              })
              e,
          bought,
        )
  ]

  abbrev pub get_miner_hash_rate : Miner Num → Num
  get_miner_hash_rate m =
      if not m.active then zero_number n else n.mul m.base_hash_rate m.boost_multiplier

  abbrev pub add_delta : Num → Miner Num → Miner Num
  add_delta delta m =
      let balance = n.add m.balance delta in
      record m {
        balance = balance;
        last_persisted_balance =
            some (n.add (or_else m.last_persisted_balance (n.sub balance delta)) delta);
      }

  -- `applyUserBalanceDelta(userId, delta)`; without an engine nothing happens.
  unfoldable pub apply_user_balance_delta : ℕ → Num → Option (Engine Num) → Option (Engine Num)
  unfolding find_miner_by_user_id change_miner
  apply_user_balance_delta u delta none = none
  apply_user_balance_delta u delta (some e) = elim (find_miner_by_user_id u e) [
    | none ↦ some e
    | some i ↦ some (change_miner i (add_delta delta) e)
  ]
