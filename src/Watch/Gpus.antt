-- ===== src/Watch/Gpus.antt =====
-- The handlers of server/controllers/autoMiningGpuController.js.
use support_block_miner.Watch.State.{Viewer, Watch, WatchDb, AutoMiningGpu, AutoMiningReward}
use support_block_miner.Database.{UserInventory}
use support_block_miner.Base.Http.{Response, accepted, rejected}
use support_block_miner.Base.{
  none, some, true, false, [], ◌∷◌, ◌==◌, ◌+◌, ◌-◌, ◌*◌, ◌&&◌, if◌then◌else◌, ℕ, not, Bool, List,
  Option, leb, ltb, String, length,
}

abbrev pub daily_limit : ℕ
daily_limit = 24

abbrev pub day_of_ms : ℕ
day_of_ms = 24 * 60 * 60 * 1000

abbrev pub is_open_gpu : ℕ → AutoMiningGpu → Bool
is_open_gpu u g = g.user_id == u && not g.is_claimed && g.is_available

-- The latest `releasedAt`, which `findFirst` with `orderBy` reads; none without a row.
abbrev pub last_release : List AutoMiningGpu → Option ℕ
last_release [] = none
last_release (g ∷ gs) = elim (last_release gs) [
  | none ↦ some g.released_at
  | some t ↦ some (if ltb t g.released_at then g.released_at else t)
]

abbrev pub is_due : Option ℕ → ℕ → Bool
is_due none now = true
is_due (some t) now = leb (t + 5 * 60 * 1000) now

abbrev pub new_gpu : ℕ → ℕ → ℕ → AutoMiningReward → AutoMiningGpu
new_gpu id now u r = record {
  id = id;
  user_id = u;
  reward_id = r.id;
  gpu_hash_rate = r.gpu_hash_rate;
  is_available = true;
  is_claimed = false;
  released_at = now;
  claimed_at = none;
  expires_at = none;
}

abbrev pub claim_gpu : ℕ → AutoMiningGpu → AutoMiningGpu
claim_gpu now g = record g {
  is_claimed = true;
  claimed_at = some now;
  expires_at = some (now + day_of_ms);
}

abbrev pub take_gpu_seconds : Viewer → Viewer
take_gpu_seconds v = record v { auto_mining_seconds_balance = v.auto_mining_seconds_balance - 300 }

abbrev pub gpu_name : Option AutoMiningReward → String
gpu_name none = "Pulse GPU v1"
gpu_name (some r) = r.name

abbrev pub gpu_image : Option AutoMiningReward → Option String
gpu_image none = some "/machines/reward2.png"
gpu_image (some r) = elim r.image_url [ none ↦ some "/machines/reward2.png" | some i ↦ some i ]

abbrev pub gpu_item : ℕ → ℕ → ℕ → Option AutoMiningReward → AutoMiningGpu → UserInventory
gpu_item id now u reward g = record {
  id = id;
  user_id = u;
  miner_id = none;
  miner_name = gpu_name reward;
  level = 1;
  hash_rate = g.gpu_hash_rate;
  slot_size = 1;
  image_url = gpu_image reward;
  acquired_at = now;
  expires_at = some (now + day_of_ms);
}

-- `claimedAt: { gt: yesterday }`
abbrev pub is_recent : Option ℕ → ℕ → Bool
is_recent none now = false
is_recent (some t) now = ltb now (t + day_of_ms)

abbrev pub is_recent_claim : ℕ → ℕ → AutoMiningGpu → Bool
is_recent_claim now u g = g.user_id == u && g.is_claimed && is_recent g.claimed_at now

module _ (db : WatchDb) where
  -- A new GPU, where one is due and the user has watched for it.
  unfoldable pub release_gpu : ℕ → ℕ → ℕ → Watch → Response (List AutoMiningGpu) × Watch
  release_gpu id now u w = elim (db.viewers.find (λ v. v.id == u) w.viewers) [
    | none ↦ (rejected 500 "Server error", w)
    | some v ↦
        if leb 300 v.auto_mining_seconds_balance
        then elim (db.rewards.find (λ r. r.is_active) w.rewards) [
          | none ↦ (accepted [], w)
          | some r ↦ (
            accepted (new_gpu id now u r ∷ []),
            record w { gpus = db.gpus.create (new_gpu id now u r) w.gpus },
          )
        ]
        else (accepted [], w)
  ]

  -- `getAvailableGPUsHandler(req, res)`
  unfoldable pub get_available_gpus : ℕ → ℕ → ℕ → Watch → Response (List AutoMiningGpu) × Watch
  unfolding release_gpu
  get_available_gpus id now u w = elim (db.gpus.find_many (is_open_gpu u) w.gpus) [
    | g ∷ gs ↦ (accepted (g ∷ gs), w)
    | [] ↦
        if is_due (last_release (db.gpus.find_many (λ g. g.user_id == u) w.gpus)) now
        then release_gpu id now u w
        else (accepted [], w)
  ]

  -- The `$transaction` of the claim.
  unfoldable pub grant_gpu : ℕ → ℕ → ℕ → AutoMiningGpu → Watch → Watch
  grant_gpu id now u g w = record w {
    gpus = db.gpus.update (λ x. x.id == g.id) (claim_gpu now) w.gpus;
    viewers = db.viewers.update (λ v. v.id == u) take_gpu_seconds w.viewers;
    inventory =
        db.inventory.create
          (gpu_item id now u (db.rewards.find (λ r. r.id == g.reward_id) w.rewards) g) w.inventory;
  }

  -- From the GPU on.
  unfoldable pub claim_found_gpu : ℕ → ℕ → ℕ → AutoMiningGpu → Watch → Response (Unit {0}) × Watch
  unfolding grant_gpu
  claim_found_gpu id now u g w =
      if leb daily_limit (length (db.gpus.find_many (is_recent_claim now u) w.gpus))
      then (rejected 400 "Limite diário de resgates alcançado. Volte mais tarde!", w)
      else elim (db.viewers.find (λ v. v.id == u) w.viewers) [
        | none ↦ (rejected 400 "Unable to claim GPU", w)
        | some v ↦
            if ltb v.auto_mining_seconds_balance 300
            then (rejected 400 "Tempo de atividade focado insuficiente.", w)
            else (accepted tt, grant_gpu id now u g w)
      ]

  -- `claimGPUHandler(req, res)`; the key of the GPU is none where it is missing.
  unfoldable pub claim_gpu_handler : ℕ → ℕ → Option ℕ → ℕ → Watch → Response (Unit {0}) × Watch
  unfolding claim_found_gpu
  claim_gpu_handler id now none u w = (rejected 400 "GPU ID is required", w)
  claim_gpu_handler id now (some gpu_id) u w =
      elim (db.gpus.find (λ g. g.id == gpu_id && g.user_id == u && not g.is_claimed) w.gpus) [
        | none ↦ (rejected 404 "GPU not available", w)
        | some g ↦ claim_found_gpu id now u g w
      ]
