-- ===== src/Faucet/Claims.antt =====
-- The handlers of server/controllers/faucetController.js. A time is a count of milliseconds; the key of
-- the day, which `getBrazilCheckinDateKey` reads from the calendar of the platform, and the keys of new rows
-- are arguments.
use support_block_miner.Shop.Purchase.{CatalogMiner, image_or_default}
use support_block_miner.Base.{
  none, some, true, false, ◌==◌, ◌+◌, ◌-◌, ◌&&◌, if◌then◌else◌, ℕ, Bool, Option, String, List, ltb,
}
use support_block_miner.Base.Http.{accepted, rejected, Response}
use support_block_miner.Base.Table.{Table, IsTable}
use support_block_miner.Database.{UserInventory}
use support_block_miner.Base.Text.{same_text}

-- `model FaucetReward`
pub record FaucetReward : Type 0 where
  pub id : ℕ
  pub miner_id : ℕ
  pub cooldown_ms : ℕ
  pub is_active : Bool

-- `model FaucetClaim`
pub record FaucetClaim : Type 0 where
  pub user_id : ℕ
  pub claimed_at : ℕ
  pub total_claims : ℕ
  pub day_key : Option String

-- `model FaucetPartnerVisit`
pub record FaucetPartnerVisit : Type 0 where
  pub user_id : ℕ
  pub day_key : String
  pub opened_at : ℕ
  pub eligible_at : ℕ

pub record Faucet : Type 0 where
  pub rewards : List FaucetReward
  pub catalog : List CatalogMiner
  pub claims : List FaucetClaim
  pub visits : List FaucetPartnerVisit
  pub inventory : List UserInventory

pub record FaucetDb : Type 0 where
  pub rewards : Table FaucetReward
  pub catalog : Table CatalogMiner
  pub claims : Table FaucetClaim
  pub visits : Table FaucetPartnerVisit
  pub inventory : Table UserInventory

pub record IsFaucetDb (db : FaucetDb) : Type 0 where
  pub rewards : IsTable db.rewards
  pub catalog : IsTable db.catalog
  pub claims : IsTable db.claims
  pub visits : IsTable db.visits
  pub inventory : IsTable db.inventory

-- What `getActiveReward` gives.
pub record ActiveReward : Type 0 where
  pub reward_id : ℕ
  pub cooldown_ms : ℕ
  pub miner : CatalogMiner

abbrev pub default_faucet_cooldown_ms : ℕ
default_faucet_cooldown_ms = 3_600_000

abbrev pub faucet_partner_wait_ms : ℕ
faucet_partner_wait_ms = 10_000

abbrev pub day_ms : ℕ
day_ms = 86_400_000

-- `status.available` of `buildStatusPayload`
abbrev pub is_available : Option FaucetClaim → ℕ → ℕ → Bool
is_available none now cooldown = true
is_available (some c) now cooldown = c.claimed_at + cooldown - now == 0

abbrev pub last_claim_at : Option FaucetClaim → ℕ
last_claim_at none = 0
last_claim_at (some c) = c.claimed_at

-- `partnerReady`
abbrev pub is_partner_ready : Option FaucetPartnerVisit → Option FaucetClaim → ℕ → Bool
is_partner_ready none record_of now = false
is_partner_ready (some v) record_of now =
    ltb 0 v.opened_at && ltb (last_claim_at record_of) v.opened_at && v.eligible_at - now == 0

abbrev pub is_visit_of : ℕ → String → FaucetPartnerVisit → Bool
is_visit_of u today v = v.user_id == u && same_text (some v.day_key) (some today)

module _ (db : FaucetDb) where
  unfoldable pub get_active_reward : Faucet → Option ActiveReward
  get_active_reward f = elim (db.rewards.find (λ r. r.is_active) f.rewards) [
    | none ↦ none
    | some r ↦ elim (db.catalog.find (λ m. m.id == r.miner_id) f.catalog) [
      | none ↦ none
      | some m ↦ some (record {
        reward_id = r.id;
        cooldown_ms = if r.cooldown_ms == 0 then default_faucet_cooldown_ms else r.cooldown_ms;
        miner = m;
      })
    ]
  ]

  abbrev pub restart_day : String → FaucetClaim → FaucetClaim
  restart_day today c = record c { total_claims = 0; day_key = some today }

  -- `normalizeFaucetRecord(userId, record)`
  unfoldable pub normalize_faucet_record :
      ℕ → String → Option FaucetClaim → Faucet → Option FaucetClaim × Faucet
  normalize_faucet_record u today none f = (none, f)
  normalize_faucet_record u today (some c) f =
      if same_text c.day_key (some today) then (some c, f) else (
        some (restart_day today c),
        record f { claims = db.claims.update (λ r. r.user_id == u) (restart_day today) f.claims },
      )

  -- `startPartnerVisit(req, res)`: the answer is `eligibleAt`.
  unfoldable pub start_partner_visit : ℕ → String → ℕ → Faucet → Response ℕ × Faucet
  start_partner_visit now today u f =
      let eligible_at = now + faucet_partner_wait_ms in
      elim (db.visits.find (is_visit_of u today) f.visits) [
        | some _ ↦ (
          accepted eligible_at,
          record f {
            visits =
                db.visits.update (is_visit_of u today)
                  (λ v. record v { opened_at = now; eligible_at = eligible_at }) f.visits;
          },
        )
        | none ↦ (
          accepted eligible_at,
          record f {
            visits =
                db.visits.create
                  (record {
                    user_id = u;
                    day_key = today;
                    opened_at = now;
                    eligible_at = eligible_at;
                  })
                  f.visits;
          },
        )
      ]

  abbrev pub faucet_item : ℕ → ℕ → ℕ → CatalogMiner → UserInventory
  faucet_item id now u m = record {
    id = id;
    user_id = u;
    miner_id = some m.id;
    miner_name = m.name;
    level = 1;
    hash_rate = m.base_hash_rate;
    slot_size = m.slot_size;
    image_url = image_or_default m.image_url;
    acquired_at = now;
    expires_at = some (now + day_ms);
  }

  abbrev pub count_claim : ℕ → String → FaucetClaim → FaucetClaim
  count_claim now today c = record c {
    claimed_at = now;
    total_claims = c.total_claims + 1;
    day_key = some today;
  }

  -- `faucetClaim.upsert` of the claim.
  unfoldable pub save_claim : ℕ → String → ℕ → List FaucetClaim → List FaucetClaim
  save_claim now today u claims = elim (db.claims.find (λ c. c.user_id == u) claims) [
    | some _ ↦ db.claims.update (λ c. c.user_id == u) (count_claim now today) claims
    | none ↦
        db.claims.create
          (record { user_id = u; claimed_at = now; total_claims = 1; day_key = some today }) claims
  ]

  -- The `$transaction` of `claim`, and the answer.
  unfoldable pub grant_reward : ℕ → ℕ → String → ℕ → ActiveReward → Faucet → Response ℕ × Faucet
  unfolding save_claim
  grant_reward id now today u reward f = (
    accepted (now + reward.cooldown_ms),
    record f {
      inventory = db.inventory.create (faucet_item id now u reward.miner) f.inventory;
      claims = save_claim now today u f.claims;
    },
  )

  -- From the day's record on.
  unfoldable pub claim_reward :
      ℕ → ℕ → String → ℕ → ActiveReward → Option FaucetClaim × Faucet → Response ℕ × Faucet
  unfolding grant_reward
  claim_reward id now today u reward (claimed, f) =
      if is_available claimed now reward.cooldown_ms
      then if is_partner_ready (db.visits.find (is_visit_of u today) f.visits) claimed now
        then grant_reward id now today u reward f
        else (rejected 403 "Visita ao parceiro incompleta ou tempo mínimo não atingido.", f)
      else (rejected 429 "Cooldown active.", f)

  -- `claim(req, res)`: an accepted request answers `nextAvailableAt`.
  unfoldable pub claim : ℕ → ℕ → String → ℕ → Faucet → Response ℕ × Faucet
  unfolding claim_reward normalize_faucet_record
  claim id now today u f = elim (get_active_reward f) [
    | none ↦ (rejected 500 "Faucet reward not configured.", f)
    | some reward ↦
        claim_reward id now today u reward
          (normalize_faucet_record u today (db.claims.find (λ c. c.user_id == u) f.claims) f)
  ]
