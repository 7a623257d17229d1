-- ===== src/Base/Dict.antt =====
-- A JavaScript `Map` with numeric keys, in insertion order: `set` of a key that is there keeps its
-- place.
use Prim.Native.Nat.{ℕ}
use mathlib.Core.Path.{◌≡◌, refl}
use mathlib.Core.Option.{Option, none, some}
use mathlib.Core.List.{List, [], ◌∷◌}
use native.Mathlib.Omega.{arith}
use support_block_miner.Base.Tests.{◌==◌, if◌then◌else◌}

-- The entries, oldest first.
abbrev pub Dict {ℓ} : Type ℓ → Type ℓ
Dict Value = List (ℕ × Value)

module _ {ℓ} {V : Type ℓ} where
  -- `map.get(key)`, with `none` for `undefined`
  abbrev pub lookup : ℕ → Dict V → Option V
  lookup key [] = none
  lookup key ((at, value) ∷ rest) = if key == at then some value else lookup key rest

  -- `map.set(key, value)`
  abbrev pub insert : ℕ → V → Dict V → Dict V
  insert key value [] = (key, value) ∷ []
  insert key value (first ∷ rest) =
      let (at, _) = first in
      if key == at then (key, value) ∷ rest else first ∷ insert key value rest

  -- No key twice.
  abbrev pub HasUniqueKeys : Dict V → Type ℓ
  HasUniqueKeys [] = Unit
  HasUniqueKeys (e ∷ d) = (lookup e.0 d ≡ none) × HasUniqueKeys d

  pub lookup-insert :
      (j k : ℕ) (v : V) (d : Dict V)
      → lookup j (insert k v d) ≡ (if j == k then some v else lookup j d)
  lookup-insert j k v [] = ground arith
  lookup-insert j k v (e ∷ d) = ground (arith, lookup-insert j k v d)

  pub insert-HasUniqueKeys :
      (k : ℕ) (v : V) (d : Dict V) → HasUniqueKeys d → HasUniqueKeys (insert k v d)
  insert-HasUniqueKeys k v [] h = (refl, tt)
  insert-HasUniqueKeys k v (e ∷ d) h =
      ground (arith, insert-HasUniqueKeys k v d h.1, lookup-insert e.0 k v d)

-- The values changed one by one, by a function that sees the key.
abbrev pub map_values {ℓ κ} : {V : Type ℓ} {W : Type κ} → (ℕ → V → W) → Dict V → Dict W
map_values f [] = []
map_values f ((k, v) ∷ d) = (k, f k v) ∷ map_values f d

abbrev pub map_option {ℓ κ} : {V : Type ℓ} {W : Type κ} → (V → W) → Option V → Option W
map_option f none = none
map_option f (some v) = some (f v)
