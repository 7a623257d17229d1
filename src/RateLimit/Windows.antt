-- ===== src/RateLimit/Windows.antt =====
-- How many requests of a key go on within a window (server/middleware/rateLimit.js).
use support_block_miner.RateLimit.Hits.{
  limit, LimiterOptions, Hit, Request, clean, cleanup, is_fresh, Limiter, count_hit, passed,
  first_hit,
}
use support_block_miner.Base.{
  none, some, true, false, [], ◌∷◌, inl, inr, refl, ◌==◌, ◌+◌, ◌≤◌, ◌-◌, ◌≡◌, ◌&&◌, arith, ℕ, Bool,
  Option, List, length, ◌⊎◌, keep, Bool-cases, Option-cases, ltb, ap, ◌∙◌, leb, sym, ◌≢◌, or_else,
  All,
}
use support_block_miner.Base.Dict.{Dict, lookup, insert, lookup-insert}
use mathlib.Core.Path.{subst}

length-keep {ℓ} : {A : Type ℓ} (p : A → Bool) (xs : List A) → length (keep p xs) ≤ length xs
length-keep p [] = omega arith
length-keep p (x ∷ xs) = ground (arith, length-keep p xs)

length-insert : {V : Type 0} (k : ℕ) (v : V) (d : Dict V) → length (insert k v d) ≤ length d + 1
length-insert k v [] = omega arith
length-insert k v (e ∷ d) = ground (arith, length-insert k v d)

lookup-keep-none :
    {V : Type 0} (p : (ℕ × V) → Bool) (k : ℕ) (d : Dict V)
    → lookup k d ≡ none
    → lookup k (keep p d) ≡ none
lookup-keep-none p k [] h = refl
lookup-keep-none p k (e ∷ d) h = ground (arith, lookup-keep-none p k d)

lookup-keep-some :
    {V : Type 0} (p : (ℕ × V) → Bool) (k : ℕ) (v : V) (d : Dict V)
    → lookup k d ≡ some v
    → p (k, v) ≡ true
    → lookup k (keep p d) ≡ some v
lookup-keep-some p k v [] h q = cc
lookup-keep-some p k v ((j, w) ∷ d) h q = elim (Bool-cases (k == j)) [
  | inl here ↦
      let same : k ≡ j = ground arith in
      let value : w ≡ v = ground arith in
      let kept : p (j, w) ≡ true = subst (λ i. p (i, w) ≡ true) same (rw value q) in
      rw (kept, here) (ap some value)
  | inr elsewhere ↦
      let rest = lookup-keep-some p k v d (ground arith) q in
      elim (Bool-cases (p (j, w))) [
        | inl kept ↦ rw (kept, elsewhere) rest
        | inr gone ↦ rw gone rest
      ]
]

-- What a key has used of its window.
abbrev pub used : Option Hit → ℕ
used none = 0
used (some e) = e.count

module _ (options : LimiterOptions) (start k : ℕ) where
  -- A window that is open at least until `start + window_ms`, and was used from `start` on.
  abbrev pub IsOpen : Option Hit → Type 0
  IsOpen none = Unit
  IsOpen (some e) = (start + options.window_ms ≤ e.reset_at) × (start ≤ e.last_seen_at)

  -- The requests of one window.
  abbrev pub IsWithin : Request → Type 0
  IsWithin r = (start ≤ r.now) × (r.now ≤ start + options.window_ms)

  -- Fewer keys than the map may hold, so that a clean-up removes only stale ones.
  abbrev pub HasRoom : ℕ → Type 0
  HasRoom keys = (options.max_keys ≡ 0) ⊎ (keys ≤ options.max_keys)

  module _ (patient : options.window_ms ≤ options.stale_after_ms) (now : ℕ)
      (early : now ≤ start + options.window_ms) where
    lookup-fresh :
        (d : Dict Hit) → IsOpen (lookup k d) → lookup k (keep (is_fresh options now) d) ≡ lookup k d
    lookup-fresh d h = elim (Option-cases (lookup k d)) [
      | inl first ↦ lookup-keep-none (is_fresh options now) k d first ∙ sym first
      | inr (e, again) ↦
          let (_, seen) = subst IsOpen again h in
          lookup-keep-some (is_fresh options now) k e d again (ground arith) ∙ sym again
    ]

    clean-lookup :
        (l : Limiter)
        → IsOpen (lookup k l.hits)
        → HasRoom (length l.hits)
        → (lookup k (clean options now l).hits ≡ lookup k l.hits)
          × (length (clean options now l).hits ≤ length l.hits)
    unfolding clean cleanup
    clean-lookup l h room =
        let fresh = keep (is_fresh options now) l.hits in
        let fewer = length-keep (is_fresh options now) l.hits in
        let same = lookup-fresh l.hits h in
        let small : ltb 0 options.max_keys && ltb options.max_keys (length fresh) ≡ false =
          elim room [ inl unbounded ↦ ground arith | inr bounded ↦ ground arith ] in
        elim (Bool-cases (
          ltb 0 options.cleanup_interval_ms
          && leb options.cleanup_interval_ms (now - l.last_cleanup_at))) [
            | inl due ↦ rw (due, clean, small) (same, fewer)
            | inr later ↦ rw (later, clean) (refl, omega arith)
          ]

  -- The entry of the key after one more request in the window.
  count_hit-IsOpen :
      (o : Option Hit) (now : ℕ)
      → IsOpen o
      → start ≤ now
      → now ≤ start + options.window_ms
      → (count_hit options now (or_else o (first_hit options now))).count ≡ used o + 1
        × IsOpen (some (count_hit options now (or_else o (first_hit options now))))
  count_hit-IsOpen none now h low high = ground arith
  count_hit-IsOpen (some e) now h low high = ground arith

  module _ (patient : options.window_ms ≤ options.stale_after_ms) (l : Limiter) (r : Request)
      (h : IsOpen (lookup k l.hits)) (inside : IsWithin r) (room : HasRoom (length l.hits)) where
    abbrev after : Limiter
    unfolding limit
    after = (limit options false r.now r.key l).1

    limit-length : length after.hits ≤ length l.hits + 1
    unfolding limit
    limit-length =
        let (_, fewer) = clean-lookup patient r.now inside.1 l h room in
        let more =
          length-insert r.key
            (count_hit options r.now
              (or_else (lookup r.key (clean options r.now l).hits) (first_hit options r.now)))
            (clean options r.now l).hits in
        omega (arith, fewer, more)

    limit-other : r.key ≢ k → lookup k after.hits ≡ lookup k l.hits
    unfolding limit
    limit-other apart =
        let (same, _) = clean-lookup patient r.now inside.1 l h room in
        let new =
          lookup-insert k r.key
            (count_hit options r.now
              (or_else (lookup r.key (clean options r.now l).hits) (first_hit options r.now)))
            (clean options r.now l).hits in
        let miss : (k == r.key) ≡ false = ground arith in new ∙ rw miss same

    limit-own :
        r.key ≡ k
        → (used (lookup k after.hits) ≡ used (lookup k l.hits) + 1)
          × IsOpen (lookup k after.hits)
          × ((limit options false r.now r.key l).0 ≡ leb (used (lookup k l.hits) + 1) options.max)
    unfolding limit
    limit-own own =
        let (same, _) = clean-lookup patient r.now inside.1 l h room in
        let (one, still) = count_hit-IsOpen (lookup k l.hits) r.now h inside.0 inside.1 in
        let new =
          lookup-insert k k
            (count_hit options r.now (or_else (lookup k l.hits) (first_hit options r.now)))
            (clean options r.now l).hits in
        let hit : (k == k) ≡ true = ground arith in
        rw (own, same, new, hit) (one, still, ap (λ c. leb c options.max) one)

  -- Within a window, at most the configured number of requests of a key go on, less what the key has
  -- used of the window, whatever other requests come between and however often the map is cleaned. The
  -- requests lie within `window_ms` of the start, entries stay fresh for a window, and there are fewer keys
  -- than the map may hold.
  pub passed-bound :
      (rs : List Request) (l : Limiter)
      → options.window_ms ≤ options.stale_after_ms
      → IsOpen (lookup k l.hits)
      → All IsWithin rs
      → HasRoom (length l.hits + length rs)
      → passed options k rs l ≤ options.max - used (lookup k l.hits)
  unfolding passed limit
  passed-bound [] l patient h inside room = omega arith
  passed-bound (r ∷ rs) l patient h inside room =
      let here : HasRoom (length l.hits) = elim room [
        | inl unbounded ↦ inl unbounded
        | inr bounded ↦ inr (omega arith)
      ] in
      let longer = limit-length patient l r h inside.0 here in
      let l' = (limit options false r.now r.key l).1 in
      let there : HasRoom (length l'.hits + length rs) = elim room [
        | inl unbounded ↦ inl unbounded
        | inr bounded ↦ inr (omega (arith, longer))
      ] in
      elim (Bool-cases (r.key == k)) [
        | inl own ↦
            let (one, still, goes_on) = limit-own patient l r h inside.0 here (ground arith) in
            let rest = passed-bound rs l' patient still inside.1 there in ground arith
        | inr other ↦
            let same = limit-other patient l r h inside.0 here (ground arith) in
            let rest = passed-bound rs l' patient (subst IsOpen (sym same) h) inside.1 there in
            ground arith
      ]
