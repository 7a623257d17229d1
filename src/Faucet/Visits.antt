-- ===== src/Faucet/Visits.antt =====
-- The waiting time of a visit, over any sequence of visits and claims
-- (server/controllers/faucetController.js).
use support_block_miner.Faucet.Claims.{
  start_partner_visit, claim, FaucetPartnerVisit, FaucetDb, Faucet, IsFaucetDb, is_visit_of,
}
use support_block_miner.Faucet.Cooldown.{Granted, claim-Granted, claim-visits}
use support_block_miner.Base.{
  some, [], inl, inr, ◌+◌, ◌≤◌, ◌≡◌, arith, ℕ, String, All, Option-cases, sym,
}
use support_block_miner.Base.Http.{accepted}
use support_block_miner.Base.Table.{update-All, find-All, create-All}
use mathlib.Core.Path.{subst}

-- A visit becomes eligible ten seconds after it was opened.
abbrev pub IsWaiting : FaucetPartnerVisit → Type 0
IsWaiting v = v.opened_at + 10_000 ≤ v.eligible_at

module _ (db : FaucetDb) where
  -- A faucet that starts without visits, after some visits and claims of any users.
  pub data FaucetRun : Faucet → Type 0 where
    no_visits : (f : Faucet) → f.visits ≡ [] → FaucetRun f
    then_starts :
        (now : ℕ) (today : String) (u : ℕ) (f : Faucet)
        → FaucetRun f
        → FaucetRun (start_partner_visit db now today u f).1
    then_claims :
        (id now : ℕ) (today : String) (u : ℕ) (f : Faucet)
        → FaucetRun f
        → FaucetRun (claim db id now today u f).1

module _ (db : FaucetDb) (laws : IsFaucetDb db) where
  start_partner_visit-IsWaiting :
      (now : ℕ) (today : String) (u : ℕ) (f : Faucet)
      → All IsWaiting f.visits
      → All IsWaiting (start_partner_visit db now today u f).1.visits
  unfolding start_partner_visit
  start_partner_visit-IsWaiting now today u f h =
      elim (Option-cases (db.visits.find (is_visit_of u today) f.visits)) [
        | inr (v, again) ↦
            rw (again, start_partner_visit)
              (update-All db.visits laws.visits IsWaiting (is_visit_of u today)
                (λ x. record x { opened_at = now; eligible_at = now + 10_000 }) f.visits
                (λ x waiting. omega arith) h)
        | inl first ↦
            rw (first, start_partner_visit)
              (create-All db.visits laws.visits IsWaiting
                (record {
                  user_id = u;
                  day_key = today;
                  opened_at = now;
                  eligible_at = now + 10_000;
                })
                f.visits h (omega arith))
      ]

  FaucetRun-IsWaiting : (f : Faucet) → FaucetRun db f → All IsWaiting f.visits
  FaucetRun-IsWaiting _ (no_visits f none_yet) = rw none_yet tt
  FaucetRun-IsWaiting _ (then_starts now today u f run) =
      start_partner_visit-IsWaiting now today u f (FaucetRun-IsWaiting f run)
  FaucetRun-IsWaiting _ (then_claims id now today u f run) =
      subst (All IsWaiting) (sym (claim-visits db laws id now today u f))
        (FaucetRun-IsWaiting f run)

  -- After any sequence of visits and claims, an accepted claim comes from a user who has opened the partner on
  -- this day, after the last claim and at least ten seconds ago, and whose last claim is at least the
  -- cooldown of the reward ago; it adds one item to the inventory. The faucet starts without visits.
  pub claim-waited :
      (id now : ℕ) (today : String) (u : ℕ) (f : Faucet) {due : ℕ}
      → FaucetRun db f
      → (claim db id now today u f).0 ≡ accepted due
      → Granted db laws now today u f due (claim db id now today u f).1
        × ((v : FaucetPartnerVisit) × (db.visits.find (is_visit_of u today) f.visits ≡ some v)
            × (v.opened_at + 10_000 ≤ now))
  claim-waited id now today u f run h =
      let granted = claim-Granted db laws id now today u f h in
      let (_, v, _, _, _, seen, _, waited, _) = granted in
      let waiting =
        find-All db.visits laws.visits IsWaiting (is_visit_of u today) f.visits
          (FaucetRun-IsWaiting f run) seen in
      (granted, (v, seen, omega (arith, waiting, waited)))
