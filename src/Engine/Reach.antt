-- ===== src/Engine/Reach.antt =====
-- The engine over its life: the calls that the rest of the server makes, in any order, on an engine
-- that started empty (server/src/miningEngine.js).
use support_block_miner.Base.{
  inl, inr, refl, ◌≡◌, arith, ℕ, Option-cases, none, ◌≢◌, List, String, Option, some, ◌==◌,
  if◌then◌else◌, Bool,
}
use support_block_miner.Engine.Numbers.{Numbers, zero_number}
use support_block_miner.Engine.Blocks.{tick, roll_back}
use support_block_miner.Base.Dict.{Dict, lookup, insert-HasUniqueKeys, insert, lookup-insert}
use support_block_miner.Engine.State.{
  Engine, Miner, MinerReward, Snapshot, Profile, new_engine, change_miner,
}
use support_block_miner.Engine.Registry.{
  SameOwners, owner, SameOwners-refl, IsRegistered, change_miner-SameOwners,
  SameOwners-IsRegistered, rejoin-KeepsOwner, set_connected-SameOwners, set_active-SameOwners,
  set_wallet-SameOwners, reload-SameOwners, apply_boost-SameOwners, upgrade_rig-SameOwners,
}
use mathlib.Core.Path.{subst}
use support_block_miner.Engine.Miners.{
  create_or_get_miner, find_miner_by_user_id, rejoin, new_miner, apply_user_balance_delta,
  set_connected, add_delta, set_active, set_wallet, reload_miner_profile, apply_boost, upgrade_rig,
}
use support_block_miner.Engine.Owners.{tick-SameOwners, roll_back-SameOwners}

-- What `createOrGetMiner` does for a user who has no miner yet.
abbrev with_miner : {Num : Type 0} → ℕ → ℕ → Miner Num → Num → Engine Num → Engine Num
with_miner i u m work e = record e {
  miners = insert i m e.miners;
  miners_by_user_id = insert u i e.miners_by_user_id;
  round_work = insert i work e.round_work;
}

module _ {Num : Type 0} (i u : ℕ) (m : Miner Num) (work : Num) (e : Engine Num) where
  with_miner-owner :
      (j : ℕ)
      → owner j (with_miner i u m work e) ≡ (if j == i then some (m.id, m.user_id) else owner j e)
  with_miner-owner j = ground (arith, lookup-insert j i m e.miners)

  with_miner-IsRegistered :
      m.id ≡ i
      → m.user_id ≡ u
      → lookup i e.miners ≡ none
      → lookup u e.miners_by_user_id ≡ none
      → IsRegistered e
      → IsRegistered (with_miner i u m work e)
  with_miner-IsRegistered same_id same_user fresh nobody h = record {
    listed = λ v j p.
        ground (arith, with_miner-owner j, lookup-insert v u i e.miners_by_user_id, h.listed v j);
    indexed = λ j k v p.
        ground
          (arith, with_miner-owner j, lookup-insert v u i e.miners_by_user_id, h.indexed j k v);
    unique_work = insert-HasUniqueKeys i work e.round_work h.unique_work;
    short_history = h.short_history;
  }

find-none :
    {Num : Type 0} (u : ℕ) (e : Engine Num)
    → u ≢ 0
    → find_miner_by_user_id u e ≡ none
    → lookup u e.miners_by_user_id ≡ none
unfolding find_miner_by_user_id
find-none u e real h = ground arith

module _ {Num : Type 0} (n : Numbers Num) where
  pub create_or_get-IsRegistered :
      (i : ℕ) (name : String) (u : ℕ) (username wallet : Option String) (p : Option (Profile Num))
      (e : Engine Num)
      → u ≢ 0
      → lookup i e.miners ≡ none
      → IsRegistered e
      → IsRegistered (create_or_get_miner n i name u username wallet p e).0
  unfolding create_or_get_miner
  create_or_get-IsRegistered i name u username wallet p e real fresh h =
      elim (Option-cases (find_miner_by_user_id u e)) [
        | inl nobody ↦
            rw (nobody, create_or_get_miner)
              (with_miner-IsRegistered i u (new_miner n i name u username wallet p) (zero_number n)
                e refl refl fresh (find-none u e real nobody) h)
        | inr (old, found) ↦
            rw (found, create_or_get_miner)
              (SameOwners-IsRegistered
                (change_miner-SameOwners old (rejoin n username wallet p) e
                  (rejoin-KeepsOwner n username wallet p))
                h)
      ]

  apply_delta-SameOwners :
      (u : ℕ) (d : Num) (e : Engine Num) {e' : Engine Num}
      → apply_user_balance_delta n u d (some e) ≡ some e'
      → SameOwners e e'
  unfolding apply_user_balance_delta
  apply_delta-SameOwners u d e {e'} h = elim (Option-cases (find_miner_by_user_id u e)) [
    | inl nobody ↦ let same : e ≡ e' = ground arith in subst (SameOwners e) same (SameOwners-refl e)
    | inr (i, found) ↦
        let same : change_miner i (add_delta n d) e ≡ e' = ground arith in
        subst (SameOwners e) same (change_miner-SameOwners i (add_delta n d) e (λ m. (refl, refl)))
  ]

  -- One call. A user who joins has an id other than 0, and `uuidv4()` draws an id that is not in use;
  -- a roll back may come at any time, with any lists.
  pub data Call : Engine Num → Engine Num → Type 0 where
    join :
        (i : ℕ) (name : String) (u : ℕ) (username wallet : Option String) (p : Option (Profile Num))
        (e : Engine Num)
        → u ≢ 0
        → lookup i e.miners ≡ none
        → Call e (create_or_get_miner n i name u username wallet p e).0
    connect : (i : ℕ) (b : Bool) (e : Engine Num) → Call e (set_connected i b e)
    activate : (i : ℕ) (b : Bool) (e : Engine Num) → Call e (set_active i b e)
    link : (i : ℕ) (w : Option String) (e : Engine Num) → Call e (set_wallet i w e)
    reload :
        (p : Option (Profile Num)) (u : ℕ) (e : Engine Num) → Call e (reload_miner_profile n p u e)
    boost : (i now : ℕ) (e : Engine Num) → Call e (apply_boost n i now e).0
    upgrade : (i : ℕ) (e : Engine Num) → Call e (upgrade_rig n i e).0
    credit_delta :
        (u : ℕ) (d : Num) (e e' : Engine Num)
        → apply_user_balance_delta n u d (some e) ≡ some e'
        → Call e e'
    advance : (now : ℕ) (e : Engine Num) → Call e (tick n now e).0
    save_failed :
        (rewards : List (MinerReward Num)) (d : Dict (Snapshot Num)) (e : Engine Num)
        → Call e (roll_back n rewards d e)

  pub data Reach (e : Engine Num) : Engine Num → Type 0 where
    here : Reach e e
    next : {f g : Engine Num} → Reach e f → Call f g → Reach e g

  Call-IsRegistered : {e f : Engine Num} → Call e f → IsRegistered e → IsRegistered f
  Call-IsRegistered (join i name u username wallet p e real fresh) =
      create_or_get-IsRegistered i name u username wallet p e real fresh
  Call-IsRegistered (connect i b e) = SameOwners-IsRegistered (set_connected-SameOwners i b e)
  Call-IsRegistered (activate i b e) = SameOwners-IsRegistered (set_active-SameOwners i b e)
  Call-IsRegistered (link i w e) = SameOwners-IsRegistered (set_wallet-SameOwners i w e)
  Call-IsRegistered (reload p u e) = SameOwners-IsRegistered (reload-SameOwners n p u e)
  Call-IsRegistered (boost i now e) = SameOwners-IsRegistered (apply_boost-SameOwners n i now e)
  Call-IsRegistered (upgrade i e) = SameOwners-IsRegistered (upgrade_rig-SameOwners n i e)
  Call-IsRegistered (credit_delta u d e e' h) =
      SameOwners-IsRegistered (apply_delta-SameOwners u d e h)
  Call-IsRegistered (advance now e) = SameOwners-IsRegistered (tick-SameOwners n now e)
  Call-IsRegistered (save_failed rewards d e) =
      SameOwners-IsRegistered (roll_back-SameOwners n rewards d e)

  new_engine-IsRegistered : (now : ℕ) → IsRegistered (new_engine n now)
  unfolding new_engine
  new_engine-IsRegistered now = record {
    listed = λ u i p. cc;
    indexed = λ i j u p. ground arith;
    unique_work = tt;
    short_history = omega arith;
  }

  Reach-IsRegistered : {e f : Engine Num} → IsRegistered e → Reach e f → IsRegistered f
  Reach-IsRegistered h here = h
  Reach-IsRegistered h (next r c) = Call-IsRegistered c (Reach-IsRegistered h r)

  -- After any calls on a new engine, in any order, the two maps of miners agree: a user is listed with
  -- a miner of that user, a miner stands under its own id and is the one that its user is listed with,
  -- the work of a round is recorded once for each miner, and the history holds at most twelve blocks.
  pub engine-IsRegistered : (now : ℕ) {e : Engine Num} → Reach (new_engine n now) e → IsRegistered e
  engine-IsRegistered now r = Reach-IsRegistered (new_engine-IsRegistered now) r
