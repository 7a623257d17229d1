-- ===== src/RateLimit/Hits.antt =====
-- `createRateLimiter` (server/middleware/rateLimit.js): the map of hits, its clean-up, and the handler. A
-- time is a count of milliseconds. A key, which the source writes as a text, is the number of that text.
-- The headers of the answer are left out.
use support_block_miner.Base.{
  true, false, [], ◌∷◌, suc, ◌==◌, ◌+◌, ◌-◌, ◌&&◌, if◌then◌else◌, ℕ, not, Bool, ltb, List, leb,
  keep, or_else, length, take,
}
use support_block_miner.Base.Dict.{Dict, lookup, insert}

-- An entry of `hits`.
pub record Hit : Type 0 where
  pub count : ℕ
  pub reset_at : ℕ
  pub last_seen_at : ℕ

-- The options; `skip` is applied before the handler, whose argument is its answer.
pub record LimiterOptions : Type 0 where
  pub window_ms : ℕ
  pub max : ℕ
  pub cleanup_interval_ms : ℕ
  pub stale_after_ms : ℕ
  pub max_keys : ℕ

-- The variables of the closure.
pub record Limiter : Type 0 where
  pub hits : Dict Hit
  pub last_cleanup_at : ℕ

-- `entries.sort((a, b) => a[1] - b[1])`, by the time of the last hit; equal times keep their order.
abbrev pub insert_by_age : (ℕ × Hit) → Dict Hit → Dict Hit
insert_by_age e [] = e ∷ []
insert_by_age e (d ∷ ds) =
    let later = insert_by_age e ds in
    if leb e.1.last_seen_at d.1.last_seen_at then e ∷ d ∷ ds else d ∷ later

abbrev pub sort_by_age : Dict Hit → Dict Hit
sort_by_age [] = []
sort_by_age (d ∷ ds) = insert_by_age d (sort_by_age ds)

-- `hits.delete(key)`
abbrev pub delete_key : ℕ → Dict Hit → Dict Hit
delete_key k d = keep (λ e. not (e.0 == k)) d

abbrev pub delete_keys : Dict Hit → Dict Hit → Dict Hit
delete_keys [] d = d
delete_keys (e ∷ es) d = delete_keys es (delete_key e.0 d)

abbrev pub is_fresh : LimiterOptions → ℕ → (ℕ × Hit) → Bool
is_fresh options now e = leb (now - e.1.last_seen_at) options.stale_after_ms

-- `cleanup(now)`
unfoldable pub cleanup : LimiterOptions → ℕ → Dict Hit → Dict Hit
cleanup options now d =
    let fresh = keep (is_fresh options now) d in
    if ltb 0 options.max_keys && ltb options.max_keys (length fresh)
    then delete_keys (take (length fresh - options.max_keys) (sort_by_age fresh)) fresh
    else fresh

-- The clean-up at the start of the handler.
unfoldable pub clean : LimiterOptions → ℕ → Limiter → Limiter
unfolding cleanup
clean options now l =
    if ltb 0 options.cleanup_interval_ms
      && leb options.cleanup_interval_ms (now - l.last_cleanup_at)
    then record { hits = cleanup options now l.hits; last_cleanup_at = now }
    else l

abbrev pub first_hit : LimiterOptions → ℕ → Hit
first_hit options now = record { count = 0; reset_at = now + options.window_ms; last_seen_at = now }

-- The entry after the request.
abbrev pub count_hit : LimiterOptions → ℕ → Hit → Hit
count_hit options now e =
    if ltb e.reset_at now
    then record { count = 1; reset_at = now + options.window_ms; last_seen_at = now }
    else record { count = e.count + 1; reset_at = e.reset_at; last_seen_at = now }

-- The handler: whether the request goes on to `next()`.
unfoldable pub limit : LimiterOptions → Bool → ℕ → ℕ → Limiter → Bool × Limiter
unfolding clean
limit options true now key l = (true, l)
limit options false now key l =
    let cleaned = clean options now l in
    let entry = count_hit options now (or_else (lookup key cleaned.hits) (first_hit options now)) in
    (leb entry.count options.max, record cleaned { hits = insert key entry cleaned.hits })

-- A request: its time and its key.
pub record Request : Type 0 where
  pub now : ℕ
  pub key : ℕ

-- How many requests with a key go on, over a sequence of requests that are not skipped.
unfoldable pub passed : LimiterOptions → ℕ → List Request → Limiter → ℕ
passed options k [] l = 0
passed options k (r ∷ rs) l =
    let (goes_on, l') = limit options false r.now r.key l in
    let rest = passed options k rs l' in if r.key == k && goes_on then suc rest else rest
