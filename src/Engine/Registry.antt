-- ===== src/Engine/Registry.antt =====
-- The two maps of miners (server/src/miningEngine.js): that they stay consistent under every method,
-- so that one user has one miner.
use support_block_miner.Base.{
  some, inl, inr, refl, ◌≤◌, ◌≡◌, ℕ, Option, ◌∙◌, Option-cases, length, ap, sym, none, arith, Bool,
  String, Bool-cases,
}
use support_block_miner.Engine.State.{Engine, Miner, change_miner, Profile}
use support_block_miner.Base.Dict.{lookup, HasUniqueKeys, map_option, lookup-insert}
use mathlib.Core.Path.{subst}
use support_block_miner.Engine.Miners.{
  set_connected, set_active, set_wallet, reload_miner_profile, apply_boost, upgrade_rig,
  reload_profile, rejoin, find_miner_by_user_id, boost_cost, rig_cost,
}
use support_block_miner.Engine.Numbers.{Numbers, less}

-- What identifies the miner under an id.
abbrev pub owner : {Num : Type 0} → ℕ → Engine Num → Option (ℕ × ℕ)
owner i e = map_option (λ m. (m.id, m.user_id)) (lookup i e.miners)

-- Each user is listed with a miner of its own, and each miner under its id and its user. All keys
-- are recorded once, and the history holds twelve blocks at most.
pub record IsRegistered {Num : Type 0} (e : Engine Num) : Type 0 where
  pub listed : (u i : ℕ) → lookup u e.miners_by_user_id ≡ some i → owner i e ≡ some (i, u)
  pub indexed :
      (i j u : ℕ) → owner i e ≡ some (j, u) → (i ≡ j) × (lookup u e.miners_by_user_id ≡ some i)
  pub unique_work : HasUniqueKeys e.round_work
  pub short_history : length e.block_history ≤ 12

-- A call that changes no id, no user and no key.
pub record SameOwners {Num : Type 0} (e e' : Engine Num) : Type 0 where
  pub owners : (i : ℕ) → owner i e' ≡ owner i e
  pub index : e'.miners_by_user_id ≡ e.miners_by_user_id
  pub work : HasUniqueKeys e.round_work → HasUniqueKeys e'.round_work
  pub history : length e.block_history ≤ 12 → length e'.block_history ≤ 12

pub SameOwners-IsRegistered :
    {Num : Type 0} {e e' : Engine Num} → SameOwners e e' → IsRegistered e → IsRegistered e'
SameOwners-IsRegistered {e = e} {e' = e'} s h = record {
  listed = λ u i p. s.owners i ∙ h.listed u i (ap (lookup u) (sym s.index) ∙ p);
  indexed = λ i j u p.
      let (same, there) = h.indexed i j u (sym (s.owners i) ∙ p) in
      (same, ap (lookup u) s.index ∙ there);
  unique_work = s.work h.unique_work;
  short_history = s.history h.short_history;
}

pub SameOwners-refl : {Num : Type 0} (e : Engine Num) → SameOwners e e
SameOwners-refl e = record { owners = λ i. refl; index = refl; work = λ h. h; history = λ h. h }

pub SameOwners-trans :
    {Num : Type 0} {e f g : Engine Num} → SameOwners e f → SameOwners f g → SameOwners e g
SameOwners-trans s t = record {
  owners = λ i. t.owners i ∙ s.owners i;
  index = t.index ∙ s.index;
  work = λ h. t.work (s.work h);
  history = λ h. t.history (s.history h);
}

-- A change of one miner that keeps its id and its user.
abbrev pub KeepsOwner : {Num : Type 0} → (Miner Num → Miner Num) → Type 0
KeepsOwner {Num} f = (m : Miner Num) → ((f m).id ≡ m.id) × ((f m).user_id ≡ m.user_id)

pub change_miner-owner :
    {Num : Type 0} (i : ℕ) (f : Miner Num → Miner Num) (e : Engine Num) (j : ℕ)
    → KeepsOwner f
    → owner j (change_miner i f e) ≡ owner j e
unfolding change_miner
change_miner-owner i f e j keeps = elim (Option-cases (lookup i e.miners)) [
  | inl absent ↦ ground arith
  | inr (m, found) ↦ ground (arith, lookup-insert j i (f m) e.miners, keeps m)
]

change_miner-rest :
    {Num : Type 0} (i : ℕ) (f : Miner Num → Miner Num) (e : Engine Num)
    → let e' = change_miner i f e in
      (e'.miners_by_user_id ≡ e.miners_by_user_id)
      × (e'.round_work ≡ e.round_work)
      × (e'.block_history ≡ e.block_history)
unfolding change_miner
change_miner-rest i f e = ground arith

pub change_miner-SameOwners :
    {Num : Type 0} (i : ℕ) (f : Miner Num → Miner Num) (e : Engine Num)
    → KeepsOwner f
    → SameOwners e (change_miner i f e)
change_miner-SameOwners i f e keeps =
    let (index, work, history) = change_miner-rest i f e in
    record {
      owners = λ j. change_miner-owner i f e j keeps;
      index = index;
      work = subst HasUniqueKeys (sym work);
      history = subst (λ h. length h ≤ 12) (sym history);
    }

module _ {Num : Type 0} where
  pub set_connected-SameOwners :
      (i : ℕ) (b : Bool) (e : Engine Num) → SameOwners e (set_connected i b e)
  unfolding set_connected
  set_connected-SameOwners i b e = change_miner-SameOwners i _ e (λ m. (refl, refl))

  pub set_active-SameOwners : (i : ℕ) (b : Bool) (e : Engine Num) → SameOwners e (set_active i b e)
  unfolding set_active
  set_active-SameOwners i b e = change_miner-SameOwners i _ e (λ m. (refl, refl))

  pub set_wallet-SameOwners :
      (i : ℕ) (w : Option String) (e : Engine Num) → SameOwners e (set_wallet i w e)
  unfolding set_wallet
  set_wallet-SameOwners i w e = change_miner-SameOwners i _ e (λ m. (refl, refl))

module _ {Num : Type 0} (n : Numbers Num) where
  reload_profile-KeepsOwner : (p : Profile Num) → KeepsOwner (reload_profile n p)
  reload_profile-KeepsOwner p m = ground arith

  pub rejoin-KeepsOwner :
      (username wallet : Option String) (p : Option (Profile Num))
      → KeepsOwner (rejoin n username wallet p)
  rejoin-KeepsOwner username wallet p m = ground arith

  pub reload-SameOwners :
      (p : Option (Profile Num)) (u : ℕ) (e : Engine Num)
      → SameOwners e (reload_miner_profile n p u e)
  unfolding reload_miner_profile
  reload-SameOwners none u e = SameOwners-refl e
  reload-SameOwners (some p) u e = elim (Option-cases (find_miner_by_user_id u e)) [
    | inl nobody ↦ rw (nobody, reload_miner_profile) (SameOwners-refl e)
    | inr (i, found) ↦
        rw (found, reload_miner_profile)
          (change_miner-SameOwners i (reload_profile n p) e (reload_profile-KeepsOwner p))
  ]

  pub apply_boost-SameOwners : (i now : ℕ) (e : Engine Num) → SameOwners e (apply_boost n i now e).0
  unfolding apply_boost
  apply_boost-SameOwners i now e = elim (Option-cases (lookup i e.miners)) [
    | inl absent ↦ rw (absent, apply_boost) (SameOwners-refl e)
    | inr (m, found) ↦ elim (Bool-cases (less n m.balance (boost_cost n))) [
      | inl poor ↦ rw (found, poor, apply_boost) (SameOwners-refl e)
      | inr rich ↦ rw (found, rich, apply_boost) (change_miner-SameOwners i _ e (λ x. (refl, refl)))
    ]
  ]

  pub upgrade_rig-SameOwners : (i : ℕ) (e : Engine Num) → SameOwners e (upgrade_rig n i e).0
  unfolding upgrade_rig
  upgrade_rig-SameOwners i e = elim (Option-cases (lookup i e.miners)) [
    | inl absent ↦ rw (absent, upgrade_rig) (SameOwners-refl e)
    | inr (m, found) ↦ elim (Bool-cases (less n m.balance (rig_cost n m.rigs))) [
      | inl poor ↦ rw (found, poor, upgrade_rig) (SameOwners-refl e)
      | inr rich ↦ rw (found, rich, upgrade_rig) (change_miner-SameOwners i _ e (λ x. (refl, refl)))
    ]
  ]
