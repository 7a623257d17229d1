-- ===== src/Watch/Release.antt =====
-- The GPUs keep users in time (server/controllers/autoMiningGpuController.js).
use support_block_miner.Watch.State.{Viewer, Watch, WatchDb, IsWatchDb, AutoMiningGpu}
use support_block_miner.Watch.Gpus.{
  get_available_gpus, release_gpu, claim_gpu_handler, claim_found_gpu, grant_gpu, claim_gpu,
  take_gpu_seconds, daily_limit, is_recent_claim, new_gpu, is_open_gpu, is_due, last_release,
}
use support_block_miner.Base.Table.{
  sum_by-create, sum_by-update_found, update-HasUnique, create-HasUnique, find-by-key,
}
use support_block_miner.Watch.Budget.{
  gpu_cost, spent, seconds, InTime, IsInTime, IsTimed, pay-IsInTime,
}
use support_block_miner.Base.{
  none, some, false, [], ◌∷◌, inl, inr, refl, ◌==◌, ◌≡◌, ◌≢◌, ◌&&◌, if◌then◌else◌, arith, ℕ, not,
  Option, All, ltb, Option-cases, List, Bool-cases, leb, ap, length, All-imp,
}
use support_block_miner.Base.Int.{pos, ◌+ℤ◌, int_laws, pos_part, neg_part}
use mathlib.Core.List.{Memᴰ}
use mathlib.Core.Path.{subst}

module _ (db : WatchDb) (laws : IsWatchDb db) (since : ℕ) where
  grant_gpu-IsTimed :
      (id now u : ℕ) (g : AutoMiningGpu) (w : Watch) {v : Viewer}
      → Memᴰ g w.gpus
      → g.user_id ≡ u
      → g.is_claimed ≡ false
      → db.viewers.find (λ v. v.id == u) w.viewers ≡ some v
      → ltb v.auto_mining_seconds_balance 300 ≡ false
      → IsTimed since w
      → IsTimed since (grant_gpu db id now u g w)
  unfolding grant_gpu
  grant_gpu-IsTimed id now u g w {v} member own unclaimed there long h =
      let found = find-by-key db.gpus laws.gpus (λ x. x.id) g w.gpus h.gpu_ids member in
      let w' = grant_gpu db id now u g w in
      let costs : (x : ℕ) → spent x w' ≡ spent x w +ℤ (if x == u then pos 240_000 else pos 0) = λ x.
        (let more =
            sum_by-update_found db.gpus laws.gpus (λ y. y.id) g.id (claim_gpu now) w.gpus
              (gpu_cost x) h.gpu_ids found in
          let free : gpu_cost x g ≡ pos 0 = ground (arith, unclaimed) in
          let price : gpu_cost x (claim_gpu now g) ≡ (if x == u then pos 240_000 else pos 0) =
            ground (arith, own) in
          omega (
            int_laws,
            ap pos_part more,
            ap neg_part more,
            ap pos_part free,
            ap neg_part free,
            ap pos_part price,
            ap neg_part price,
          )) in
      record {
        viewer_ids =
            update-HasUnique db.viewers laws.viewers (λ v. v.id) (λ v. v.id == u) take_gpu_seconds
              w.viewers (λ v. refl) h.viewer_ids;
        gpu_ids =
            update-HasUnique db.gpus laws.gpus (λ y. y.id) (λ y. y.id == g.id) (claim_gpu now)
              w.gpus (λ y. refl) h.gpu_ids;
        in_time =
            pay-IsInTime db laws since take_gpu_seconds u w w' (pos 240_000) h.viewer_ids there
              (λ v. refl) refl (grind (int_laws, long)) costs h.in_time;
      }

  pub claim_gpu_handler-IsTimed :
      (id now u : ℕ) (gpu_id : Option ℕ) (w : Watch)
      → IsTimed since w
      → IsTimed since (claim_gpu_handler db id now gpu_id u w).1
  unfolding claim_gpu_handler claim_found_gpu
  claim_gpu_handler-IsTimed id now u none w h = h
  claim_gpu_handler-IsTimed id now u (some gpu_id) w h =
      elim (Option-cases
        (db.gpus.find (λ g. g.id == gpu_id && g.user_id == u && not g.is_claimed) w.gpus)) [
          | inl gone ↦ rw (gone, claim_gpu_handler) h
          | inr (g, here) ↦
              let (hit, member) = laws.gpus.find_some _ _ _ here in
              elim (Bool-cases
                (leb daily_limit (length (db.gpus.find_many (is_recent_claim now u) w.gpus)))) [
                  | inl full ↦ rw (here, full, claim_gpu_handler, claim_found_gpu) h
                  | inr free ↦ elim (Option-cases (db.viewers.find (λ v. v.id == u) w.viewers)) [
                    | inl nobody ↦ rw (here, free, nobody, claim_gpu_handler, claim_found_gpu) h
                    | inr (v, there) ↦ elim (Bool-cases (ltb v.auto_mining_seconds_balance 300)) [
                      | inl short ↦
                          rw (here, free, there, short, claim_gpu_handler, claim_found_gpu) h
                      | inr long ↦
                          rw (here, free, there, long, claim_gpu_handler, claim_found_gpu)
                            (grant_gpu-IsTimed id now u g w member (ground arith) (ground arith)
                              there long h)
                    ]
                  ]
                ]
        ]

  -- A new GPU is not claimed, so it costs nothing yet.
  release_gpu-IsTimed :
      (id now u : ℕ) (w : Watch)
      → All (λ g. g.id ≢ id) w.gpus
      → IsTimed since w
      → IsTimed since (release_gpu db id now u w).1
  unfolding release_gpu
  release_gpu-IsTimed id now u w new h =
      elim (Option-cases (db.viewers.find (λ v. v.id == u) w.viewers)) [
        | inl nobody ↦ rw (nobody, release_gpu) h
        | inr (v, there) ↦ elim (Bool-cases (leb 300 v.auto_mining_seconds_balance)) [
          | inr short ↦ rw (there, short, release_gpu) h
          | inl long ↦ elim (Option-cases (db.rewards.find (λ r. r.is_active) w.rewards)) [
            | inl no_reward ↦ rw (there, long, no_reward, release_gpu) h
            | inr (r, reward) ↦
                let g = new_gpu id now u r in
                rw (there, long, reward, release_gpu)
                  (record {
                    viewer_ids = h.viewer_ids;
                    gpu_ids = create-HasUnique db.gpus laws.gpus (λ g. g.id) g w.gpus h.gpu_ids new;
                    in_time =
                        All-imp (IsInTime since w)
                          (IsInTime since (record w { gpus = db.gpus.create g w.gpus })) w.viewers
                          (λ v p.
                            let more = sum_by-create db.gpus laws.gpus (gpu_cost v.id) g w.gpus in
                            let nothing : gpu_cost v.id g ≡ pos 0 = ground arith in
                            let level : spent v.id w
                                ≡ spent v.id (record w { gpus = db.gpus.create g w.gpus }) =
                              omega (
                                int_laws,
                                ap pos_part more,
                                ap neg_part more,
                                ap pos_part nothing,
                                ap neg_part nothing,
                              ) in
                            subst (λ c. InTime since v.last_heartbeat_at (seconds v) c) level p)
                          h.in_time;
                  })
          ]
        ]
      ]

  pub get_available_gpus-IsTimed :
      (id now u : ℕ) (w : Watch)
      → All (λ g. g.id ≢ id) w.gpus
      → IsTimed since w
      → IsTimed since (get_available_gpus db id now u w).1
  unfolding get_available_gpus
  get_available_gpus-IsTimed id now u w new h =
      by_open (db.gpus.find_many (is_open_gpu u) w.gpus) refl
    where
      by_open :
          (gs : List AutoMiningGpu)
          → db.gpus.find_many (is_open_gpu u) w.gpus ≡ gs
          → IsTimed since (get_available_gpus db id now u w).1
      by_open (g ∷ gs) e = rw (e, get_available_gpus) h
      by_open [] e =
          elim (Bool-cases
            (is_due (last_release (db.gpus.find_many (λ g. g.user_id == u) w.gpus)) now)) [
              | inr early ↦ rw (e, early, get_available_gpus) h
              | inl due ↦ rw (e, due, get_available_gpus) (release_gpu-IsTimed id now u w new h)
            ]
