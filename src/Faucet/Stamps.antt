-- ===== src/Faucet/Stamps.antt =====
-- The row that a claim leaves (`faucetClaim.upsert`, server/controllers/faucetController.js).
use support_block_miner.Faucet.Claims.{FaucetDb, FaucetClaim, IsFaucetDb, save_claim, count_claim}
use support_block_miner.Base.Table.{All-Memᴰ, create-All}
use support_block_miner.Base.{
  none, some, [], ◌∷◌, inl, inr, refl, ◌==◌, ◌≡◌, ◌++◌, arith, ℕ, List, All, String, Option-cases,
  Bool-cases, false, if◌then◌else◌, map, All-imp,
}
use mathlib.Core.Path.{subst}

All-last {ℓ κ} : {A : Type ℓ} (P : A → Type κ) (xs : List A) (y : A) → All P (xs ++ y ∷ []) → P y
All-last P [] y h = h.0
All-last P (x ∷ xs) y h = All-last P xs y h.1

module _ (db : FaucetDb) (laws : IsFaucetDb db) where
  module _ (now : ℕ) (today : String) (u : ℕ) where
    abbrev pub IsStamped : FaucetClaim → Type 0
    IsStamped c = c.user_id ≡ u → c.claimed_at ≡ now

    stamp-IsStamped :
        (rs : List FaucetClaim)
        → All IsStamped (map (λ r. if r.user_id == u then count_claim db now today r else r) rs)
    stamp-IsStamped [] = tt
    stamp-IsStamped (r ∷ rs) = elim (Bool-cases (r.user_id == u)) [
      | inl own ↦ rw own ((λ e. refl), stamp-IsStamped rs)
      | inr other ↦ rw other ((λ e. absurd (ground arith)), stamp-IsStamped rs)
    ]

    stamp-stays :
        (rs : List FaucetClaim)
        → All
            (λ r. (r.user_id == u) ≡ false)
            (map (λ r. if r.user_id == u then count_claim db now today r else r) rs)
        → All (λ r. (r.user_id == u) ≡ false) rs
    stamp-stays [] h = tt
    stamp-stays (r ∷ rs) h = (ground arith, stamp-stays rs h.1)

    pub save_claim-IsStamped :
        (cs : List FaucetClaim) → All IsStamped (save_claim db now today u cs)
    unfolding save_claim
    save_claim-IsStamped cs = elim (Option-cases (db.claims.find (λ c. c.user_id == u) cs)) [
      | inr (c, again) ↦ rw (again, save_claim, laws.claims.update_rows) (stamp-IsStamped cs)
      | inl first ↦
          let others = laws.claims.find_none _ cs first in
          rw (first, save_claim)
            (create-All db.claims laws.claims IsStamped _ cs
              (All-imp (λ r. (r.user_id == u) ≡ false) IsStamped cs (λ r q e. absurd (ground arith))
                others)
              (λ e. refl))
    ]

    pub save_claim-there :
        (cs : List FaucetClaim)
        → ¬ (db.claims.find (λ c. c.user_id == u) (save_claim db now today u cs) ≡ none)
    unfolding save_claim
    save_claim-there cs gone = elim (Option-cases (db.claims.find (λ c. c.user_id == u) cs)) [
      | inr (c, again) ↦
          let saved : save_claim db now today u cs
              ≡ map (λ r. if r.user_id == u then count_claim db now today r else r) cs =
            rw (again, save_claim, laws.claims.update_rows) refl in
          let nobody = laws.claims.find_none _ _ gone in
          let (hit, member) = laws.claims.find_some _ cs c again in
          let missed =
            All-Memᴰ (λ r. (r.user_id == u) ≡ false) cs
              (stamp-stays cs (subst (All (λ r. (r.user_id == u) ≡ false)) saved nobody)) member in
          absurd (cc (hit, missed))
      | inl first ↦
          let new : FaucetClaim = record {
            user_id = u;
            claimed_at = now;
            total_claims = 1;
            day_key = some today;
          } in
          let saved : save_claim db now today u cs ≡ cs ++ new ∷ [] =
            rw (first, save_claim, laws.claims.create_rows) refl in
          let nobody = laws.claims.find_none _ _ gone in
          let missed =
            All-last (λ r. (r.user_id == u) ≡ false) cs new
              (subst (All (λ r. (r.user_id == u) ≡ false)) saved nobody) in
          absurd (ground arith)
    ]
