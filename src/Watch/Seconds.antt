-- ===== src/Watch/Seconds.antt =====
-- The heartbeats and the videos keep users in time (server/controllers/sessionController.js,
-- server/controllers/youtubeController.js).
use support_block_miner.Watch.State.{Viewer, Watch, WatchDb, IsWatchDb}
use support_block_miner.Watch.Heartbeat.{
  WatchType, youtube, auto_mining, Fingerprint, process_heartbeat, count_beat, add_seconds,
  is_too_fast, is_unreadable, is_stale,
}
use support_block_miner.Watch.Videos.{
  claim_video_reward, grant_power, take_video_seconds, new_watch, total_hash, is_recent_watch,
  daily_limit_hash, reward_per_claim,
}
use support_block_miner.Base.Table.{sum_by-create, update_found-All, update-HasUnique, All-Memᴰ}
use support_block_miner.Watch.Budget.{
  video_cost, spent, seconds, IsInTime, IsTimed, InTime-beat, pay-IsInTime,
}
use support_block_miner.Base.{
  none, some, false, inl, inr, refl, ◌==◌, ◌+◌, ◌≤◌, ◌≡◌, if◌then◌else◌, ℕ, Option-cases, Option,
  Bool-cases, Bool, String, ltb, ap,
}
use support_block_miner.Base.Int.{pos, ◌+ℤ◌, int_laws, pos_part, neg_part}

module _ (db : WatchDb) (laws : IsWatchDb db) (since : ℕ) where
  add_seconds-id : (kind : WatchType) (now : ℕ) (v : Viewer) → (add_seconds kind now v).id ≡ v.id
  add_seconds-id youtube now v = refl
  add_seconds-id auto_mining now v = refl

  add_seconds-IsInTime :
      (kind : WatchType) (now : ℕ) (v : Viewer) (w : Watch)
      → since ≤ now
      → is_too_fast v.last_heartbeat_at now ≡ false
      → IsInTime since w v
      → IsInTime since w (add_seconds kind now v)
  add_seconds-IsInTime youtube now v w later slow h =
      let more =
        InTime-beat since now v.last_heartbeat_at (seconds v) (spent v.id w) later slow h in
      omega (int_laws, more)
  add_seconds-IsInTime auto_mining now v w later slow h =
      let more =
        InTime-beat since now v.last_heartbeat_at (seconds v) (spent v.id w) later slow h in
      omega (int_laws, more)

  count_beat-IsTimed :
      (now u : ℕ) (kind : WatchType) (w : Watch)
      → since ≤ now
      → IsTimed since w
      → IsTimed since (count_beat db now kind u w).1
  unfolding count_beat
  count_beat-IsTimed now u kind w later h =
      elim (Option-cases (db.viewers.find (λ v. v.id == u) w.viewers)) [
        | inl nobody ↦ rw (nobody, count_beat) h
        | inr (v, there) ↦ elim (Bool-cases (is_too_fast v.last_heartbeat_at now)) [
          | inl fast ↦ rw (there, fast, count_beat) h
          | inr slow ↦
              let (hit, member) = laws.viewers.find_some _ _ _ there in
              let mine = All-Memᴰ (IsInTime since w) w.viewers h.in_time member in
              rw (there, slow, count_beat)
                (record {
                  viewer_ids =
                      update-HasUnique db.viewers laws.viewers (λ v. v.id) (λ v. v.id == u)
                        (add_seconds kind now) w.viewers (add_seconds-id kind now) h.viewer_ids;
                  gpu_ids = h.gpu_ids;
                  in_time =
                      update_found-All db.viewers laws.viewers (λ v. v.id) u (add_seconds kind now)
                        w.viewers (IsInTime since w) h.viewer_ids there h.in_time
                        (add_seconds-IsInTime kind now v w later slow mine);
                })
        ]
      ]

  pub process_heartbeat-IsTimed :
      (now u : ℕ) (kind : Option WatchType) (is_bot : Bool) (print : Fingerprint) (w : Watch)
      → since ≤ now
      → IsTimed since w
      → IsTimed since (process_heartbeat db now kind is_bot print u w).1
  unfolding process_heartbeat
  process_heartbeat-IsTimed now u none is_bot print w later h = h
  process_heartbeat-IsTimed now u (some kind) is_bot print w later h = elim (Bool-cases is_bot) [
    | inl bot ↦ rw (bot, process_heartbeat) h
    | inr human ↦ elim (Bool-cases (is_unreadable print)) [
      | inl bad ↦ rw (human, bad, process_heartbeat) h
      | inr read ↦ elim (Bool-cases (is_stale print now)) [
        | inl stale ↦ rw (human, read, stale, process_heartbeat) h
        | inr fresh ↦
            rw (human, read, fresh, process_heartbeat) (count_beat-IsTimed now u kind w later h)
      ]
    ]
  ]

  pub claim_video_reward-IsTimed :
      (now duration u : ℕ) (video : Option String) (w : Watch)
      → IsTimed since w
      → IsTimed since (claim_video_reward db now duration video u w).1
  unfolding claim_video_reward grant_power
  claim_video_reward-IsTimed now duration u none w h = h
  claim_video_reward-IsTimed now duration u (some video) w h =
      elim (Option-cases (db.viewers.find (λ v. v.id == u) w.viewers)) [
        | inl nobody ↦ rw (nobody, claim_video_reward) h
        | inr (v, there) ↦ elim (Bool-cases (ltb v.yt_seconds_balance 60)) [
          | inl short ↦ rw (there, short, claim_video_reward) h
          | inr long ↦
              elim (Bool-cases (
                ltb daily_limit_hash (
                  total_hash (db.history.find_many (is_recent_watch now u) w.history)
                  + reward_per_claim))) [
                    | inl full ↦ rw (there, long, full, claim_video_reward) h
                    | inr free ↦
                        let y = new_watch now duration u video in
                        let w' = grant_power db now duration u video w in
                        let costs : (x : ℕ)
                            → spent x w' ≡ spent x w +ℤ (if x == u then pos 48_000 else pos 0) =
                          λ x.
                            (let more =
                                sum_by-create db.history laws.history (video_cost x) y w.history in
                              grind (int_laws, ap pos_part more, ap neg_part more)) in
                        rw (there, long, free, claim_video_reward, grant_power)
                          (record {
                            viewer_ids =
                                update-HasUnique db.viewers laws.viewers (λ v. v.id)
                                  (λ v. v.id == u) take_video_seconds w.viewers (λ v. refl)
                                  h.viewer_ids;
                            gpu_ids = h.gpu_ids;
                            in_time =
                                pay-IsInTime db laws since take_video_seconds u w w' (pos 48_000)
                                  h.viewer_ids there (λ v. refl) refl (grind (int_laws, long)) costs
                                  h.in_time;
                          })
                  ]
        ]
      ]
