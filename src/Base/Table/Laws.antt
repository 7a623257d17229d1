-- ===== src/Base/Table/Laws.antt =====
-- What a predicate of all rows, a unique column and a sum over the rows become under the client's
-- calls.
use Prim.Native.Nat.{ℕ}
use mathlib.Core.Path.{◌≡◌, refl, sym, subst, ap, ◌∙◌}
use mathlib.Core.Logic.{◌≢◌, inl, inr}
use mathlib.Core.Bool.{Bool, not}
use mathlib.Core.Option.{some}
use mathlib.Core.List.{List, [], ◌∷◌, ◌++◌, map, Memᴰ}
use native.Mathlib.Omega.{arith}
use support_block_miner.Base.Tests.{◌==◌, if◌then◌else◌, Bool-cases}
use support_block_miner.Base.Lists.{All-zip, All-imp, keep, All, All-append, All-keep}
use support_block_miner.Base.Int.{ℤ, pos, ◌+ℤ◌, pos_part, neg_part, int_laws}
use support_block_miner.Base.Table.Defs.{Table, IsTable, HasUnique}

pub All-Memᴰ {κ} : {A : Type 0} (P : A → Type κ) {r : A} (rs : List A) → All P rs → Memᴰ r rs → P r
All-Memᴰ P [] h m = elim m [ ]
All-Memᴰ P (x ∷ rs) h (Memᴰ.head e) = subst P (sym e) h.0
All-Memᴰ P (x ∷ rs) h (Memᴰ.tail m) = All-Memᴰ P rs h.1 m

-- The sum of an amount over the rows.
abbrev pub sum_by : {A : Type 0} → (A → ℤ) → List A → ℤ
sum_by g [] = pos 0
sum_by g (r ∷ rs) = g r +ℤ sum_by g rs

abbrev updated : {A : Type 0} → (A → Bool) → (A → A) → A → A
updated p f r = if p r then f r else r

sum_by-append :
    {A : Type 0} (g : A → ℤ) (xs ys : List A) → sum_by g (xs ++ ys) ≡ sum_by g xs +ℤ sum_by g ys
sum_by-append g [] ys = omega int_laws
sum_by-append g (x ∷ xs) ys = rw (sum_by-append g xs ys) (omega int_laws)

All-map-updated {κ} :
    {A : Type 0} (P : A → Type κ) (p : A → Bool) (f : A → A) (rs : List A)
    → ((r : A) → P r → P (f r))
    → All P rs
    → All P (map (updated p f) rs)
All-map-updated P p f [] keeps h = tt
All-map-updated P p f (r ∷ rs) keeps h = elim (Bool-cases (p r)) [
  | inl e ↦ rw e (keeps r h.0, All-map-updated P p f rs keeps h.1)
  | inr e ↦ rw e (h.0, All-map-updated P p f rs keeps h.1)
]

module _ {A : Type 0} (key : A → ℕ) (f : A → A) where
  -- No row is changed where the key is not there.
  map-updated_absent :
      (k : ℕ) (rs : List A) → All (λ s. key s ≢ k) rs → map (updated (λ r. key r == k) f) rs ≡ rs
  map-updated_absent k [] h = refl
  map-updated_absent k (r ∷ rs) h = ground (arith, map-updated_absent k rs h.1)

  module _ (k : ℕ) (u : A) (found : key u ≡ k) where
    missed : (r : A) → key u ≢ key r → updated (λ x. key x == k) f r ≡ r
    missed r apart = ground arith

    hit_first :
        (r : A) (rs : List A)
        → u ≡ r
        → All (λ s. key s ≢ key r) rs
        → map (updated (λ x. key x == k) f) (r ∷ rs) ≡ f u ∷ rs
    hit_first r rs e h =
        let q : key r ≡ k = ap key (sym e) ∙ found in
        let hit : updated (λ x. key x == k) f r ≡ f r = ground arith in
        let rest = map-updated_absent k rs (subst (λ j. All (λ s. key s ≢ j) rs) q h) in
        cc (hit, rest, e)

    -- One row is changed where it is.
    sum_by-updated :
        (g : A → ℤ) (rs : List A)
        → HasUnique key rs
        → Memᴰ u rs
        → sum_by g (map (updated (λ r. key r == k) f) rs) +ℤ g u ≡ sum_by g rs +ℤ g (f u)
    sum_by-updated g [] h m = elim m [ ]
    sum_by-updated g (r ∷ rs) h (Memᴰ.head e) =
        let same : g r ≡ g u = ap g (sym e) in
        ap (λ xs. sum_by g xs +ℤ g u) (hit_first r rs e h.0) ∙ rw same (omega int_laws)
    sum_by-updated g (r ∷ rs) h (Memᴰ.tail m) =
        let apart : key u ≢ key r = All-Memᴰ (λ s. key s ≢ key r) rs h.0 m in
        let ih = sum_by-updated g rs h.1 m in
        rw (missed r apart) (omega (int_laws, ap pos_part ih, ap neg_part ih))

    -- Only the row that was found is changed, so what holds of all rows is shown for it alone.
    All-updated {κ} :
        (P : A → Type κ) (rs : List A)
        → HasUnique key rs
        → Memᴰ u rs
        → All P rs
        → P (f u)
        → All P (map (updated (λ r. key r == k) f) rs)
    All-updated P [] h m a n = elim m [ ]
    All-updated P (r ∷ rs) h (Memᴰ.head e) a n = subst (All P) (sym (hit_first r rs e h.0)) (n, a.1)
    All-updated P (r ∷ rs) h (Memᴰ.tail m) a n =
        let apart : key u ≢ key r = All-Memᴰ (λ s. key s ≢ key r) rs h.0 m in
        rw (missed r apart) (a.0, All-updated P rs h.1 m a.1 n)

  -- A change that keeps the column keeps it unique.
  ne-map-updated :
      (p : A → Bool) (k : ℕ) (rs : List A)
      → ((r : A) → key (f r) ≡ key r)
      → All (λ s. key s ≢ k) rs
      → All (λ s. key s ≢ k) (map (updated p f) rs)
  ne-map-updated p k [] same h = tt
  ne-map-updated p k (r ∷ rs) same h = elim (Bool-cases (p r)) [
    | inl e ↦ rw (e, same r) (h.0, ne-map-updated p k rs same h.1)
    | inr e ↦ rw e (h.0, ne-map-updated p k rs same h.1)
  ]

  HasUnique-updated :
      (p : A → Bool) (rs : List A)
      → ((r : A) → key (f r) ≡ key r)
      → HasUnique key rs
      → HasUnique key (map (updated p f) rs)
  HasUnique-updated p [] same h = tt
  HasUnique-updated p (r ∷ rs) same h = elim (Bool-cases (p r)) [
    | inl e ↦ rw (e, same r) (ne-map-updated p (key r) rs same h.0, HasUnique-updated p rs same h.1)
    | inr e ↦ rw e (ne-map-updated p (key r) rs same h.0, HasUnique-updated p rs same h.1)
  ]

sum_by-zero :
    {A : Type 0} (g : A → ℤ) (rs : List A) → All (λ r. g r ≡ pos 0) rs → sum_by g rs ≡ pos 0
sum_by-zero g [] h = refl
sum_by-zero g (r ∷ rs) h = rw (h.0, sum_by-zero g rs h.1) (omega int_laws)

-- A sum to which one row contributes.
sum_by-single :
    {A : Type 0} (key : A → ℕ) (g : A → ℤ) (u : A) (rs : List A)
    → HasUnique key rs
    → Memᴰ u rs
    → All (λ r. key r ≢ key u → g r ≡ pos 0) rs
    → sum_by g rs ≡ g u
sum_by-single key g u [] h m z = elim m [ ]
sum_by-single key g u (r ∷ rs) h (Memᴰ.head e) z =
    let others = All-zip (λ s. key s ≢ key r) (λ s. key s ≢ key u → g s ≡ pos 0) rs h.0 z.1 in
    let rest =
      sum_by-zero g rs
        (All-imp _ (λ s. g s ≡ pos 0) rs (λ s p. p.1 (λ q. p.0 (q ∙ ap key e))) others) in
    rw (rest, e) (omega int_laws)
sum_by-single key g u (r ∷ rs) h (Memᴰ.tail m) z =
    let apart : key u ≢ key r = All-Memᴰ (λ s. key s ≢ key r) rs h.0 m in
    let none_here = z.0 (λ q. apart (sym q)) in
    rw (none_here, sum_by-single key g u rs h.1 m z.1) (omega int_laws)

HasUnique-append :
    {A : Type 0} (key : A → ℕ) (rs : List A) (r : A)
    → HasUnique key rs
    → All (λ s. key s ≢ key r) rs
    → HasUnique key (rs ++ r ∷ [])
HasUnique-append key [] r h new = (tt, tt)
HasUnique-append key (x ∷ rs) r h new = (
  All-append (λ s. key s ≢ key x) rs (r ∷ []) h.0 ((λ e. new.0 (sym e)), tt),
  HasUnique-append key rs r h.1 new.1,
)

pub HasUnique-keep :
    {A : Type 0} (key : A → ℕ) (p : A → Bool) (rs : List A)
    → HasUnique key rs
    → HasUnique key (keep p rs)
HasUnique-keep key p [] h = tt
HasUnique-keep key p (r ∷ rs) h = elim (Bool-cases (p r)) [
  | inl e ↦ rw e (All-keep (λ s. key s ≢ key r) p rs h.0, HasUnique-keep key p rs h.1)
  | inr e ↦ rw e (HasUnique-keep key p rs h.1)
]

module _ {Row : Type 0} (t : Table Row) (laws : IsTable t) where
  pub find-All {κ} :
      (P : Row → Type κ) (p : Row → Bool) (rs : List Row) {r : Row}
      → All P rs
      → t.find p rs ≡ some r
      → P r
  find-All P p rs {r} h e = All-Memᴰ P rs h (laws.find_some p rs r e).1

  pub create-All {κ} :
      (P : Row → Type κ) (r : Row) (rs : List Row) → All P rs → P r → All P (t.create r rs)
  create-All P r rs h k = rw (laws.create_rows r rs) (All-append P rs (r ∷ []) h (k, tt))

  pub delete-All {κ} :
      (P : Row → Type κ) (p : Row → Bool) (rs : List Row) → All P rs → All P (t.delete p rs)
  delete-All P p rs h = rw (laws.delete_rows p rs) (All-keep P (λ r. not (p r)) rs h)

  pub update-All {κ} :
      (P : Row → Type κ) (p : Row → Bool) (f : Row → Row) (rs : List Row)
      → ((r : Row) → P r → P (f r))
      → All P rs
      → All P (t.update p f rs)
  update-All P p f rs keeps h = rw (laws.update_rows p f rs) (All-map-updated P p f rs keeps h)

  pub create-HasUnique :
      (key : Row → ℕ) (r : Row) (rs : List Row)
      → HasUnique key rs
      → All (λ s. key s ≢ key r) rs
      → HasUnique key (t.create r rs)
  create-HasUnique key r rs h new = rw (laws.create_rows r rs) (HasUnique-append key rs r h new)

  pub delete-HasUnique :
      (key : Row → ℕ) (p : Row → Bool) (rs : List Row)
      → HasUnique key rs
      → HasUnique key (t.delete p rs)
  delete-HasUnique key p rs h =
      rw (laws.delete_rows p rs) (HasUnique-keep key (λ r. not (p r)) rs h)

  pub update-HasUnique :
      (key : Row → ℕ) (p : Row → Bool) (f : Row → Row) (rs : List Row)
      → ((r : Row) → key (f r) ≡ key r)
      → HasUnique key rs
      → HasUnique key (t.update p f rs)
  update-HasUnique key p f rs same h =
      rw (laws.update_rows p f rs) (HasUnique-updated key f p rs same h)

  pub sum_by-create :
      (g : Row → ℤ) (r : Row) (rs : List Row) → sum_by g (t.create r rs) ≡ sum_by g rs +ℤ g r
  sum_by-create g r rs = rw (laws.create_rows r rs, sum_by-append g rs (r ∷ [])) (omega int_laws)

  -- An update by a unique key, of the row that a search by the key has found.
  module _ (key : Row → ℕ) (k : ℕ) (f : Row → Row) (rs : List Row) {u : Row} where
    found_key : t.find (λ r. key r == k) rs ≡ some u → key u ≡ k
    found_key e = let hit = (laws.find_some (λ r. key r == k) rs u e).0 in ground arith

    pub update_found-All {κ} :
        (P : Row → Type κ)
        → HasUnique key rs
        → t.find (λ r. key r == k) rs ≡ some u
        → All P rs
        → P (f u)
        → All P (t.update (λ r. key r == k) f rs)
    update_found-All P h e a n =
        let m = (laws.find_some (λ r. key r == k) rs u e).1 in
        rw (laws.update_rows (λ r. key r == k) f rs)
          (All-updated key f k u (found_key e) P rs h m a n)

    pub sum_by-update_found :
        (g : Row → ℤ)
        → HasUnique key rs
        → t.find (λ r. key r == k) rs ≡ some u
        → sum_by g (t.update (λ r. key r == k) f rs) +ℤ g u ≡ sum_by g rs +ℤ g (f u)
    sum_by-update_found g h e =
        let m = (laws.find_some (λ r. key r == k) rs u e).1 in
        rw (laws.update_rows (λ r. key r == k) f rs)
          (sum_by-updated key f k u (found_key e) g rs h m)

  -- A sum to which only the row of a key contributes.
  pub sum_by-find_single :
      (key : Row → ℕ) (k : ℕ) (rs : List Row) {u : Row} (g : Row → ℤ)
      → HasUnique key rs
      → t.find (λ r. key r == k) rs ≡ some u
      → All (λ r. key r ≢ key u → g r ≡ pos 0) rs
      → sum_by g rs ≡ g u
  sum_by-find_single key k rs {u} g h e z =
      sum_by-single key g u rs h (laws.find_some (λ r. key r == k) rs u e).1 z
