-- ===== src/Sessions/Nonces.antt =====
-- `allocateNonce` and `resetNonce` (server/utils/nonceManager.js). The key is `keyFor`, the pending
-- nonce what the provider answers, and `to_number` is `Number`, of a `BigInt`.
use text.Mathlib.Text.{◌==◌ as str_eq}
use text.Mathlib.TextEquality.{eq_iff}
use support_block_miner.Base.{
  none, some, true, false, [], ◌∷◌, inl, inr, refl, ◌+◌, ◌≤◌, ◌≡◌, if◌then◌else◌, arith, ℕ, not,
  List, String, Option, keep, ltb, Bool-cases, sym, ◌∙◌, ap, suc, length, All, All-imp, All-keep,
}
use mathlib.Core.Path.{subst}

-- `nonceState`: the next nonce by key.
abbrev pub NonceState : Type 0
NonceState = List (String × ℕ)

abbrev pub next_nonce : String → NonceState → Option ℕ
next_nonce key [] = none
next_nonce key ((at, n) ∷ rest) = if str_eq at key then some n else next_nonce key rest

-- `nonceState.set(key, …)`
abbrev pub set_nonce : String → ℕ → NonceState → NonceState
set_nonce key n [] = (key, n) ∷ []
set_nonce key n ((at, m) ∷ rest) =
    if str_eq at key then (key, n) ∷ rest else (at, m) ∷ set_nonce key n rest

-- `resetNonce`
abbrev pub reset_nonce : String → NonceState → NonceState
reset_nonce key s = keep (λ e. not (str_eq e.0 key)) s

abbrev pub later_nonce : Option ℕ → ℕ → ℕ
later_nonce none pending = pending
later_nonce (some next) pending = if ltb pending next then next else pending

-- A call of one of the two functions.
pub data NonceCall : Type 0 where
  allocates : String → ℕ → NonceCall
  resets : String → NonceCall

module _ (to_number : ℕ → ℕ) where
  -- `allocateNonce`, where the address is given.
  unfoldable pub allocate_nonce : String → ℕ → NonceState → ℕ × NonceState
  allocate_nonce key pending s =
      let n = later_nonce (next_nonce key s) pending in (to_number n, set_nonce key (n + 1) s)

  -- A run of calls, and the nonces that it gives for a key.
  unfoldable pub nonces_of : String → List NonceCall → NonceState → List ℕ
  unfolding allocate_nonce
  nonces_of key [] s = []
  nonces_of key (allocates k pending ∷ calls) s =
      let (n, s') = allocate_nonce k pending s in
      let rest = nonces_of key calls s' in if str_eq k key then n ∷ rest else rest
  nonces_of key (resets k ∷ calls) s = nonces_of key calls (reset_nonce k s)

-- The numbers up to 2⁵³, of which `Number` keeps each.
abbrev pub safe_limit : ℕ
safe_limit = 9_007_199_254_740_992

abbrev pub IsExact : (ℕ → ℕ) → Type 0
IsExact to_number = (n : ℕ) → n ≤ safe_limit → to_number n ≡ n

-- The pending nonces, and as many more as there are calls to come, stay below the limit.
abbrev pub HasSafeNonces : List NonceCall → Type 0
HasSafeNonces [] = Unit
HasSafeNonces (allocates k pending ∷ calls) =
    (pending + length (allocates k pending ∷ calls) ≤ safe_limit) × HasSafeNonces calls
HasSafeNonces (resets k ∷ calls) = HasSafeNonces calls

-- The same for the nonces of a state, with a number of calls to come.
abbrev pub HasSafeState : ℕ → NonceState → Type 0
HasSafeState room s = All (λ e. e.1 + room ≤ safe_limit) s

-- No call resets the key.
abbrev pub HasNoReset : String → List NonceCall → Type 0
HasNoReset key [] = Unit
HasNoReset key (allocates k pending ∷ calls) = HasNoReset key calls
HasNoReset key (resets k ∷ calls) = (str_eq k key ≡ false) × HasNoReset key calls

-- Increasing from a number on.
abbrev pub IsIncreasing : ℕ → List ℕ → Type 0
IsIncreasing from [] = Unit
IsIncreasing from (n ∷ ns) = (from ≤ n) × IsIncreasing (n + 1) ns

abbrev pub lowest : Option ℕ → ℕ
lowest none = 0
lowest (some n) = n

next_nonce-set_nonce :
    (key k : String) (n : ℕ) (s : NonceState)
    → next_nonce key (set_nonce k n s) ≡ (if str_eq k key then some n else next_nonce key s)
next_nonce-set_nonce key k n [] = refl
next_nonce-set_nonce key k n (e ∷ s) =
    let rest = next_nonce-set_nonce key k n s in
    elim (Bool-cases (str_eq e.0 k)) [
      | inl hit ↦
          let same : e.0 ≡ k = (eq_iff e.0 k).0 hit in
          elim (Bool-cases (str_eq k key)) [
            | inl mine ↦ rw (hit, mine) refl
            | inr other ↦
                let missed : str_eq e.0 key ≡ false =
                  subst (λ x. str_eq x key ≡ false) (sym same) other in
                rw (hit, other, missed) refl
          ]
      | inr miss ↦ elim (Bool-cases (str_eq e.0 key)) [
        | inr other ↦ rw (miss, other) rest
        | inl mine ↦ elim (Bool-cases (str_eq k key)) [
          | inr apart ↦ rw (miss, mine, apart) refl
          | inl same ↦ absurd (
              let p = (eq_iff e.0 key).0 mine in
              let q = (eq_iff k key).0 same in let r = (eq_iff e.0 k).1 (p ∙ sym q) in ground arith)
        ]
      ]
    ]

lowest_le : (o : Option ℕ) (pending : ℕ) → lowest o ≤ later_nonce o pending
lowest_le none pending = omega arith
lowest_le (some next) pending = ground arith

-- An allocation is not below the next nonce of its key.
enough :
    (key k : String) (pending : ℕ) (s : NonceState)
    → str_eq k key ≡ true
    → lowest (next_nonce key s) ≤ later_nonce (next_nonce k s) pending
enough key k pending s mine =
    subst (λ x. lowest (next_nonce x s) ≤ later_nonce (next_nonce k s) pending)
      ((eq_iff k key).0 mine) (lowest_le (next_nonce k s) pending)

next_nonce-reset_nonce :
    (key k : String) (s : NonceState)
    → str_eq k key ≡ false
    → next_nonce key (reset_nonce k s) ≡ next_nonce key s
next_nonce-reset_nonce key k [] apart = refl
next_nonce-reset_nonce key k (e ∷ s) apart =
    let rest = next_nonce-reset_nonce key k s apart in
    elim (Bool-cases (str_eq e.0 k)) [
      | inl hit ↦
          let missed : str_eq e.0 key ≡ false =
            subst (λ x. str_eq x key ≡ false) (sym ((eq_iff e.0 k).0 hit)) apart in
          rw (hit, missed) rest
      | inr miss ↦ elim (Bool-cases (str_eq e.0 key)) [
        | inl mine ↦ rw (miss, mine) refl
        | inr other ↦ rw (miss, other) rest
      ]
    ]

set_nonce-HasSafeState :
    (room n : ℕ) (k : String) (s : NonceState)
    → n + room ≤ safe_limit
    → HasSafeState room s
    → HasSafeState room (set_nonce k n s)
set_nonce-HasSafeState room n k [] small h = (small, tt)
set_nonce-HasSafeState room n k (e ∷ s) small h = elim (Bool-cases (str_eq e.0 k)) [
  | inl hit ↦ rw hit (small, h.1)
  | inr miss ↦ rw miss (h.0, set_nonce-HasSafeState room n k s small h.1)
]

less_room : (room : ℕ) (s : NonceState) → HasSafeState (suc room) s → HasSafeState room s
less_room room s h =
    All-imp (λ e. e.1 + suc room ≤ safe_limit) (λ e. e.1 + room ≤ safe_limit) s
      (λ e small. omega (arith, small)) h

-- An allocation stays as far below the limit as the state and the pending nonce are.
later_nonce-safe :
    (room pending : ℕ) (k : String) (s : NonceState)
    → pending + room ≤ safe_limit
    → HasSafeState room s
    → later_nonce (next_nonce k s) pending + room ≤ safe_limit
later_nonce-safe room pending k [] small h = small
later_nonce-safe room pending k (e ∷ s) small h = elim (Bool-cases (str_eq e.0 k)) [
  | inr miss ↦ rw miss (later_nonce-safe room pending k s small h.1)
  | inl hit ↦ rw hit (let here = h.0 in ground arith)
]

-- The nonces of a key that no call resets, however the calls for other keys lie between, are increasing,
-- so none is given twice, and start from the next nonce of the state, as long as the nonces stay below
-- 2⁵³, up to where `Number` keeps each number.
pub nonces_of-IsIncreasing :
    (to_number : ℕ → ℕ) (key : String) (calls : List NonceCall) (s : NonceState)
    → IsExact to_number
    → HasNoReset key calls
    → HasSafeNonces calls
    → HasSafeState (length calls) s
    → IsIncreasing (lowest (next_nonce key s)) (nonces_of to_number key calls s)
unfolding nonces_of allocate_nonce
nonces_of-IsIncreasing to_number key [] s exact kept safe small = tt
nonces_of-IsIncreasing to_number key (resets k ∷ calls) s exact kept safe small =
    subst (λ o. IsIncreasing (lowest o) (nonces_of to_number key calls (reset_nonce k s)))
      (next_nonce-reset_nonce key k s kept.0)
      (nonces_of-IsIncreasing to_number key calls (reset_nonce k s) exact kept.1 safe (
        All-keep (λ e. e.1 + length calls ≤ safe_limit) (λ e. not (str_eq e.0 k)) s
          (less_room (length calls) s small)))
nonces_of-IsIncreasing to_number key (allocates k pending ∷ calls) s exact kept safe small =
    let n = later_nonce (next_nonce k s) pending in
    let s' = set_nonce k (n + 1) s in
    let fits = later_nonce-safe (suc (length calls)) pending k s safe.0 small in
    let same_number : to_number n ≡ n = exact n (omega (arith, fits)) in
    let level = next_nonce-set_nonce key k (n + 1) s in
    let rest = nonces_of-IsIncreasing to_number key calls s' exact kept safe.1 (
      set_nonce-HasSafeState (length calls) (n + 1) k s (omega (arith, fits))
        (less_room (length calls) s small)) in
    elim (Bool-cases (str_eq k key)) [
      | inr other ↦
          let same : next_nonce key s' ≡ next_nonce key s =
            level ∙ ap (λ b. if b then some (n + 1) else next_nonce key s) other in
          rw (other, nonces_of)
            (subst (λ o. IsIncreasing (lowest o) (nonces_of to_number key calls s')) same rest)
      | inl mine ↦
          let same : next_nonce key s' ≡ some (n + 1) =
            level ∙ ap (λ b. if b then some (n + 1) else next_nonce key s) mine in
          rw (mine, nonces_of, same_number)
            (
              enough key k pending s mine,
              subst (λ o. IsIncreasing (lowest o) (nonces_of to_number key calls s')) same rest,
            )
    ]
