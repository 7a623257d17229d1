-- ===== src/Tests/FaucetTests.antt =====
-- A run of the faucet, and its theorems at that input.
use support_block_miner.Tests.Stores.{small_miner, faucet_db, faucet_db-IsFaucetDb}
use support_block_miner.Base.{true, [], ◌∷◌, refl, ◌≤◌, ◌≡◌, some, ◌+◌}
use support_block_miner.Base.Http.{accepted}
use support_block_miner.Faucet.Claims.{
  Faucet, claim, claim_reward, get_active_reward, grant_reward, normalize_faucet_record, save_claim,
  start_partner_visit, FaucetPartnerVisit, is_visit_of,
}
use support_block_miner.Faucet.Cooldown.{Granted, claim-claim}
use support_block_miner.Faucet.Visits.{claim-waited, then_starts, no_visits}

-- An hour of cooldown, and no visits yet.
abbrev opened : Faucet
opened = record {
  rewards = record { id = 1; miner_id = 2; cooldown_ms = 3_600_000; is_active = true } ∷ [];
  catalog = small_miner ∷ [];
  claims = [];
  visits = [];
  inventory = [];
}

-- A user opens the partner's page.
abbrev visited : Faucet
visited = (start_partner_visit faucet_db 1000 "2026-05-01" 7 opened).1

granted : (claim faucet_db 40 20_000 "2026-05-01" 7 visited).0 ≡ accepted 3_620_000
unfolding claim claim_reward get_active_reward grant_reward start_partner_visit
granted = refl

claim-waited_example :
    Granted faucet_db faucet_db-IsFaucetDb 20_000 "2026-05-01" 7 visited 3_620_000
      (claim faucet_db 40 20_000 "2026-05-01" 7 visited).1
    × ((v : FaucetPartnerVisit) × (faucet_db.visits.find (is_visit_of 7 "2026-05-01") visited.visits
          ≡ some v)
        × (v.opened_at + 10_000 ≤ 20_000))
claim-waited_example =
    claim-waited faucet_db faucet_db-IsFaucetDb 40 20_000 "2026-05-01" 7 visited
      (then_starts 1000 "2026-05-01" 7 opened (no_visits opened refl)) granted

-- A second row of visits, for the day after, lets the user claim again.
abbrev twice_visited : Faucet
twice_visited = record opened {
  visits =
      record { user_id = 7; day_key = "2026-05-01"; opened_at = 1000; eligible_at = 11_000 }
      ∷ record {
        user_id = 7;
        day_key = "2026-05-02";
        opened_at = 90_000_000;
        eligible_at = 90_010_000;
      }
      ∷ [];
}

first : (claim faucet_db 40 20_000 "2026-05-01" 7 twice_visited).0 ≡ accepted 3_620_000
unfolding claim claim_reward get_active_reward grant_reward
first = refl

second :
    (claim faucet_db 41 90_020_000 "2026-05-02" 7
      (claim faucet_db 40 20_000 "2026-05-01" 7 twice_visited).1).0
    ≡ accepted 93_620_000
unfolding claim claim_reward get_active_reward grant_reward normalize_faucet_record save_claim
second = refl

claim-claim_example : 3_620_000 ≤ 90_020_000
claim-claim_example =
    claim-claim faucet_db faucet_db-IsFaucetDb 40 41 20_000 90_020_000 "2026-05-01" "2026-05-02" 7
      twice_visited first second
