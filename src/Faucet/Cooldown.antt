-- ===== src/Faucet/Cooldown.antt =====
-- When a claim is granted, and how soon the next one is (`claim`,
-- server/controllers/faucetController.js).
use support_block_miner.Faucet.Claims.{
  claim, FaucetDb, FaucetClaim, IsFaucetDb, Faucet, normalize_faucet_record, is_available,
  ActiveReward, last_claim_at, FaucetPartnerVisit, get_active_reward, is_visit_of, is_partner_ready,
  grant_reward, claim_reward, faucet_item, save_claim,
}
use support_block_miner.Base.Table.{find-All}
use support_block_miner.Base.{
  none, some, true, inl, inr, refl, suc, ◌==◌, ◌+◌, ◌≤◌, ◌≡◌, arith, ℕ, Option, All, String,
  Option-cases, Bool-cases, length, ap, ◌∙◌, length-append, sym,
}
use support_block_miner.Base.Text.{same_text}
use support_block_miner.Base.Http.{accepted}
use mathlib.Core.Path.{subst}
use support_block_miner.Faucet.Stamps.{save_claim-there, IsStamped, save_claim-IsStamped}

abbrev pub IsPast : Option FaucetClaim → ℕ → ℕ → Type 0
IsPast none now cooldown = Unit
IsPast (some c) now cooldown = c.claimed_at + cooldown ≤ now

module _ (db : FaucetDb) (laws : IsFaucetDb db) where
  abbrev pub claim_of : ℕ → Faucet → Option FaucetClaim
  claim_of u f = db.claims.find (λ c. c.user_id == u) f.claims

  -- What an accepted claim has shown and done: a visit of the partner on this day that is newer than the
  -- last claim and long enough ago, a claim long enough ago, and one new item.
  abbrev pub Granted : ℕ → String → ℕ → Faucet → ℕ → Faucet → Type 0
  Granted now today u f due f' =
      (reward : ActiveReward) × (v : FaucetPartnerVisit) × (get_active_reward db f ≡ some reward)
      × (due ≡ now + reward.cooldown_ms)
      × IsPast (claim_of u f) now reward.cooldown_ms
      × (db.visits.find (is_visit_of u today) f.visits ≡ some v)
      × (suc (last_claim_at (claim_of u f)) ≤ v.opened_at)
      × (v.eligible_at ≤ now)
      × (length f'.inventory ≡ length f.inventory + 1)

  abbrev normalized : ℕ → String → Faucet → Option FaucetClaim × Faucet
  unfolding normalize_faucet_record
  normalized u today f = normalize_faucet_record db u today (claim_of u f) f

  -- The day's record keeps the time of the last claim, and the other tables.
  normalized-kept :
      (u : ℕ) (today : String) (f : Faucet) (now cooldown : ℕ)
      → (last_claim_at (normalized u today f).0 ≡ last_claim_at (claim_of u f))
        × (is_available (normalized u today f).0 now cooldown
            ≡ is_available (claim_of u f) now cooldown)
        × ((normalized u today f).1.inventory ≡ f.inventory)
        × ((normalized u today f).1.visits ≡ f.visits)
  unfolding normalize_faucet_record
  normalized-kept u today f now cooldown = elim (Option-cases (claim_of u f)) [
    | inl first ↦ rw (first, normalize_faucet_record) (refl, refl, refl, refl)
    | inr (c, again) ↦ elim (Bool-cases (same_text c.day_key (some today))) [
      | inl same ↦ rw (again, same, normalize_faucet_record) (refl, refl, refl, refl)
      | inr other ↦ rw (again, other, normalize_faucet_record) (refl, refl, refl, refl)
    ]
  ]

  is_available-IsPast :
      (c : Option FaucetClaim) (now cooldown : ℕ)
      → is_available c now cooldown ≡ true
      → IsPast c now cooldown
  is_available-IsPast none now cooldown h = tt
  is_available-IsPast (some c) now cooldown h = ground arith

  ready-visit :
      (found : Option FaucetPartnerVisit) (c : Option FaucetClaim) (now : ℕ)
      → is_partner_ready found c now ≡ true
      → (v : FaucetPartnerVisit) × (found ≡ some v)
        × (suc (last_claim_at c) ≤ v.opened_at)
        × (v.eligible_at ≤ now)
  ready-visit none c now h = cc
  ready-visit (some v) c now h = (v, refl, ground arith, ground arith)

  length-granted :
      (id now : ℕ) (today : String) (u : ℕ) (reward : ActiveReward) (f : Faucet)
      → length (grant_reward db id now today u reward f).1.inventory ≡ length f.inventory + 1
  unfolding grant_reward
  length-granted id now today u reward f =
      ap length (laws.inventory.create_rows (faucet_item db id now u reward.miner) f.inventory)
      ∙ length-append f.inventory _

  -- An accepted claim comes from a user who has visited the partner on this day, after the last claim,
  -- whose stored time of eligibility has come, and whose last claim is at least the cooldown of the reward ago; it adds
  -- one item to the inventory.
  pub claim-Granted :
      (id now : ℕ) (today : String) (u : ℕ) (f : Faucet) {due : ℕ}
      → (claim db id now today u f).0 ≡ accepted due
      → Granted now today u f due (claim db id now today u f).1
  unfolding claim claim_reward grant_reward
  claim-Granted id now today u f {due} h = elim (Option-cases (get_active_reward db f)) [
    | inl nothing ↦ absurd (ground arith)
    | inr (reward, active) ↦
        let (last, open_again, items, visited) = normalized-kept u today f now reward.cooldown_ms in
        elim (Bool-cases (is_available (normalized u today f).0 now reward.cooldown_ms)) [
          | inr early ↦ absurd (ground arith)
          | inl past ↦
              elim (Bool-cases (
                is_partner_ready
                  (db.visits.find (is_visit_of u today) (normalized u today f).1.visits)
                  (normalized u today f).0 now)) [
                    | inr away ↦ absurd (ground arith)
                    | inl ready ↦
                        let (v, seen, newer, waited) = ready-visit _ _ now ready in
                        let paid : due ≡ now + reward.cooldown_ms = ground arith in
                        let gone =
                          is_available-IsPast (claim_of u f) now reward.cooldown_ms
                            (sym open_again ∙ past) in
                        let here = ap (db.visits.find (is_visit_of u today)) (sym visited) ∙ seen in
                        let more =
                          length-granted id now today u reward (normalized u today f).1
                          ∙ ap (λ xs. length xs + 1) items in
                        rw (active, past, ready, claim, claim_reward)
                          (
                            reward,
                            v,
                            refl,
                            paid,
                            gone,
                            here,
                            omega (arith, newer, last),
                            waited,
                            more,
                          )
                  ]
        ]
  ]

  -- A claim leaves the visits.
  pub claim-visits :
      (id now : ℕ) (today : String) (u : ℕ) (f : Faucet)
      → (claim db id now today u f).1.visits ≡ f.visits
  unfolding claim claim_reward grant_reward
  claim-visits id now today u f = elim (Option-cases (get_active_reward db f)) [
    | inl nothing ↦ rw (nothing, claim) refl
    | inr (reward, active) ↦
        let (_, _, _, same) = normalized-kept u today f now reward.cooldown_ms in
        elim (Bool-cases (is_available (normalized u today f).0 now reward.cooldown_ms)) [
          | inr early ↦ rw (active, early, claim, claim_reward) same
          | inl past ↦
              elim (Bool-cases (
                is_partner_ready
                  (db.visits.find (is_visit_of u today) (normalized u today f).1.visits)
                  (normalized u today f).0 now)) [
                    | inr away ↦ rw (active, past, away, claim, claim_reward) same
                    | inl ready ↦ rw (active, past, ready, claim, claim_reward) same
                  ]
        ]
  ]

  normalized-rewards :
      (u : ℕ) (today : String) (f : Faucet)
      → ((normalized u today f).1.rewards ≡ f.rewards)
        × ((normalized u today f).1.catalog ≡ f.catalog)
  unfolding normalize_faucet_record
  normalized-rewards u today f = elim (Option-cases (claim_of u f)) [
    | inl first ↦ rw (first, normalize_faucet_record) (refl, refl)
    | inr (c, again) ↦ elim (Bool-cases (same_text c.day_key (some today))) [
      | inl same ↦ rw (again, same, normalize_faucet_record) (refl, refl)
      | inr other ↦ rw (again, other, normalize_faucet_record) (refl, refl)
    ]
  ]

  -- An accepted claim stamps the user's row and leaves the rewards.
  claim-stamps :
      (id now : ℕ) (today : String) (u : ℕ) (f : Faucet) {due : ℕ}
      → (claim db id now today u f).0 ≡ accepted due
      → let f' = (claim db id now today u f).1 in
        (f'.claims ≡ save_claim db now today u (normalized u today f).1.claims)
        × (f'.rewards ≡ f.rewards)
        × (f'.catalog ≡ f.catalog)
  unfolding claim claim_reward grant_reward
  claim-stamps id now today u f h = elim (Option-cases (get_active_reward db f)) [
    | inl nothing ↦ absurd (ground arith)
    | inr (reward, active) ↦
        let (same, listed) = normalized-rewards u today f in
        elim (Bool-cases (is_available (normalized u today f).0 now reward.cooldown_ms)) [
          | inr early ↦ absurd (ground arith)
          | inl past ↦
              elim (Bool-cases (
                is_partner_ready
                  (db.visits.find (is_visit_of u today) (normalized u today f).1.visits)
                  (normalized u today f).0 now)) [
                    | inr away ↦ absurd (ground arith)
                    | inl ready ↦ rw (active, past, ready, claim, claim_reward) (refl, same, listed)
                  ]
        ]
  ]

  get_active_reward-cong :
      (f f' : Faucet)
      → f'.rewards ≡ f.rewards
      → f'.catalog ≡ f.catalog
      → get_active_reward db f' ≡ get_active_reward db f
  unfolding get_active_reward
  get_active_reward-cong f f' same listed = rw (same, listed) refl

  -- Of two accepted claims of a user, one directly after the other, the second is not before the time
  -- that the first has answered, whatever the days and the keys are.
  pub claim-claim :
      (id id' now now' : ℕ) (today today' : String) (u : ℕ) (f : Faucet) {due due' : ℕ}
      → (claim db id now today u f).0 ≡ accepted due
      → (claim db id' now' today' u (claim db id now today u f).1).0 ≡ accepted due'
      → due ≤ now'
  claim-claim id id' now now' today today' u f h h' =
      let f' = (claim db id now today u f).1 in
      let (reward, _, active, paid, _, _, _, _, _) = claim-Granted id now today u f h in
      let (reward', _, active', _, past, _, _, _, _) = claim-Granted id' now' today' u f' h' in
      let (stamped, same, listed) = claim-stamps id now today u f h in
      let one : some reward ≡ some reward' =
        sym active ∙ sym (get_active_reward-cong f f' same listed) ∙ active' in
      let equal : reward.cooldown_ms ≡ reward'.cooldown_ms = cc one in
      elim (Option-cases (claim_of u f')) [
        | inl gone ↦ absurd (
            save_claim-there db laws now today u (normalized u today f).1.claims
              (subst (λ cs. db.claims.find (λ c. c.user_id == u) cs ≡ none) stamped gone))
        | inr (c, there) ↦
            let all =
              subst (All (IsStamped db laws now today u)) (sym stamped)
                (save_claim-IsStamped db laws now today u (normalized u today f).1.claims) in
            let (hit, _) = laws.claims.find_some _ _ c there in
            let last =
              find-All db.claims laws.claims (IsStamped db laws now today u) _ f'.claims all there
                (ground arith) in
            let gap : c.claimed_at + reward'.cooldown_ms ≤ now' =
              subst (λ x. IsPast x now' reward'.cooldown_ms) there past in
            omega (arith, paid, equal, gap, last)
      ]
