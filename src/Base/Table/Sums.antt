-- ===== src/Base/Table/Sums.antt =====
-- What deleting a row takes from a sum over the rows.
use mathlib.Core.Path.{◌≡◌, refl, sym, subst, ap}
use mathlib.Core.Logic.{◌≢◌}
use mathlib.Core.Bool.{not}
use mathlib.Core.List.{List, [], ◌∷◌, Memᴰ}
use mathlib.Core.Logic.{inl, inr}
use mathlib.Core.Bool.{Bool, true}
use support_block_miner.Base.Tests.{Bool-cases}
use support_block_miner.Base.Lists.{All-imp}
use Prim.Native.Nat.{ℕ}
use native.Mathlib.Omega.{arith}
use support_block_miner.Base.Tests.{◌==◌}
use support_block_miner.Base.Lists.{keep, All}
use support_block_miner.Base.Int.{ℤ, ◌+ℤ◌, pos_part, neg_part, int_laws}
use support_block_miner.Base.Table.Defs.{Table, IsTable, HasUnique}
use support_block_miner.Base.Table.Laws.{All-Memᴰ, sum_by}

module _ {A : Type 0} (key : A → ℕ) where
  keep_absent :
      (k : ℕ) (rs : List A) → All (λ s. key s ≢ k) rs → keep (λ r. not (key r == k)) rs ≡ rs
  keep_absent k [] h = refl
  keep_absent k (r ∷ rs) h = ground (arith, keep_absent k rs h.1)

  sum_by-keep :
      (g : A → ℤ) (u : A) (rs : List A)
      → HasUnique key rs
      → Memᴰ u rs
      → sum_by g (keep (λ r. not (key r == key u)) rs) +ℤ g u ≡ sum_by g rs
  sum_by-keep g u [] h m = elim m [ ]
  sum_by-keep g u (r ∷ rs) h (Memᴰ.head e) =
      let q : key r ≡ key u = ap key (sym e) in
      let rest = keep_absent (key u) rs (subst (λ j. All (λ s. key s ≢ j) rs) q h.0) in
      let gone : keep (λ r. not (key r == key u)) (r ∷ rs) ≡ rs = ground (arith, rest) in
      rw (gone, ap g e) (omega int_laws)
  sum_by-keep g u (r ∷ rs) h (Memᴰ.tail m) =
      let apart : key u ≢ key r = All-Memᴰ (λ s. key s ≢ key r) rs h.0 m in
      let ih = sum_by-keep g u rs h.1 m in
      let stays : keep (λ r. not (key r == key u)) (r ∷ rs)
          ≡ r ∷ keep (λ r. not (key r == key u)) rs =
        ground arith in
      rw stays (omega (int_laws, ap pos_part ih, ap neg_part ih))

module _ {Row : Type 0} (t : Table Row) (laws : IsTable t) where
  -- Deleting a row by its unique key takes its share from the sum.
  pub sum_by-delete_row :
      (key : Row → ℕ) (g : Row → ℤ) (u : Row) (rs : List Row)
      → HasUnique key rs
      → Memᴰ u rs
      → sum_by g (t.delete (λ r. key r == key u) rs) +ℤ g u ≡ sum_by g rs
  sum_by-delete_row key g u rs h m =
      rw (laws.delete_rows (λ r. key r == key u) rs) (sum_by-keep key g u rs h m)

module _ {A : Type 0} (key : A → ℕ) (u : A) (p : A → Bool) (hit : p u ≡ true)
    (only : (r : A) → p r ≡ true → key r ≡ key u) where
  keep_missed : (rs : List A) → All (λ s. key s ≢ key u) rs → keep (λ r. not (p r)) rs ≡ rs
  keep_missed [] h = refl
  keep_missed (r ∷ rs) h = elim (Bool-cases (p r)) [
    | inl e ↦ absurd (h.0 (only r e))
    | inr e ↦ rw e (ap (◌∷◌ r) (keep_missed rs h.1))
  ]

  sum_by-keep_found :
      (g : A → ℤ) (rs : List A)
      → HasUnique key rs
      → Memᴰ u rs
      → sum_by g (keep (λ r. not (p r)) rs) +ℤ g u ≡ sum_by g rs
  sum_by-keep_found g [] h m = elim m [ ]
  sum_by-keep_found g (r ∷ rs) h (Memᴰ.head e) =
      let rest = keep_missed rs (subst (λ j. All (λ s. key s ≢ j) rs) (ap key (sym e)) h.0) in
      let here : p r ≡ true = subst (λ x. p x ≡ true) e hit in
      let gone : keep (λ r. not (p r)) (r ∷ rs) ≡ rs = rw here rest in
      rw (gone, ap g e) (omega int_laws)
  sum_by-keep_found g (r ∷ rs) h (Memᴰ.tail m) =
      let apart : key u ≢ key r = All-Memᴰ (λ s. key s ≢ key r) rs h.0 m in
      let ih = sum_by-keep_found g rs h.1 m in
      elim (Bool-cases (p r)) [
        | inl e ↦ absurd (apart (sym (only r e)))
        | inr e ↦ rw e (omega (int_laws, ap pos_part ih, ap neg_part ih))
      ]

-- A kept row that passes stays among the rows.
pub Memᴰ-keep :
    {A : Type 0} (p : A → Bool) (u : A) (rs : List A) → p u ≡ true → Memᴰ u rs → Memᴰ u (keep p rs)
Memᴰ-keep p u [] h m = elim m [ ]
Memᴰ-keep p u (r ∷ rs) h (Memᴰ.head e) =
    let here : p r ≡ true = subst (λ x. p x ≡ true) e h in rw here (Memᴰ.head e)
Memᴰ-keep p u (r ∷ rs) h (Memᴰ.tail m) =
    let rest = Memᴰ-keep p u rs h m in
    elim (Bool-cases (p r)) [ inl e ↦ rw e (Memᴰ.tail rest) | inr e ↦ rw e rest ]

-- The kept rows are rows that pass.
pub keep-Memᴰ :
    {A : Type 0} (p : A → Bool) (rs : List A) → All (λ u. (p u ≡ true) × Memᴰ u rs) (keep p rs)
keep-Memᴰ p [] = tt
keep-Memᴰ p (r ∷ rs) =
    let rest =
      All-imp (λ u. (p u ≡ true) × Memᴰ u rs) (λ u. (p u ≡ true) × Memᴰ u (r ∷ rs)) (keep p rs)
        (λ u q. (q.0, Memᴰ.tail q.1)) (keep-Memᴰ p rs) in
    elim (Bool-cases (p r)) [ inl e ↦ rw e ((e, Memᴰ.head refl), rest) | inr e ↦ rw e rest ]

module _ {Row : Type 0} (t : Table Row) (laws : IsTable t) where
  -- The same by any test that only the row passes.
  pub sum_by-delete_found :
      (key : Row → ℕ) (u : Row) (p : Row → Bool) (g : Row → ℤ) (rs : List Row)
      → p u ≡ true
      → ((r : Row) → p r ≡ true → key r ≡ key u)
      → HasUnique key rs
      → Memᴰ u rs
      → sum_by g (t.delete p rs) +ℤ g u ≡ sum_by g rs
  sum_by-delete_found key u p g rs hit only h m =
      rw (laws.delete_rows p rs) (sum_by-keep_found key u p hit only g rs h m)
