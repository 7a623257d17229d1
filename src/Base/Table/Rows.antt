-- ===== src/Base/Table/Rows.antt =====
-- Rows by a unique column, and rows that are changed all at once.
use mathlib.Core.Option.{some}
use support_block_miner.Base.Tests.{◌==◌, Option-cases}
use support_block_miner.Base.Table.Defs.{Table, IsTable}
use mathlib.Core.Logic.{inl, inr}
use mathlib.Core.Bool.{false}
use native.Mathlib.Omega.{arith}
use mathlib.Core.Path.{◌≡◌, refl, sym, ap, ◌∙◌}
use mathlib.Core.Logic.{◌≢◌}
use mathlib.Core.List.{List, [], ◌∷◌, map, Memᴰ}
use Prim.Native.Nat.{ℕ}
use support_block_miner.Base.Lists.{All, All-imp}
use support_block_miner.Base.Table.Defs.{HasUnique}
use support_block_miner.Base.Table.Laws.{All-Memᴰ}

-- Rows with the key of a row are that row.
pub same-by-key :
    {A : Type 0} (key : A → ℕ) (u : A) (rs : List A)
    → HasUnique key rs
    → Memᴰ u rs
    → All (λ r. key r ≡ key u → r ≡ u) rs
same-by-key key u [] h m = elim m [ ]
same-by-key key u (r ∷ rs) h (Memᴰ.head e) = (
  (λ q. sym e),
  All-imp (λ s. key s ≢ key r) (λ s. key s ≡ key u → s ≡ u) rs
      (λ s apart q. absurd (apart (q ∙ ap key e))) h.0,
)
same-by-key key u (r ∷ rs) h (Memᴰ.tail m) =
    ((λ q. absurd (All-Memᴰ (λ s. key s ≢ key r) rs h.0 m (sym q))), same-by-key key u rs h.1 m)

pub All-members : {A : Type 0} (rs : List A) → All (λ r. Memᴰ r rs) rs
All-members [] = tt
All-members (r ∷ rs) = (
  Memᴰ.head refl,
  All-imp (λ x. Memᴰ x rs) (λ x. Memᴰ x (r ∷ rs)) rs (λ x m. Memᴰ.tail m) (All-members rs),
)

pub All-map-imp {κ μ} :
    {A : Type 0} (P : A → Type κ) (Q : A → Type μ) (f : A → A) (rs : List A)
    → ((r : A) → P r → Q (f r))
    → All P rs
    → All Q (map f rs)
All-map-imp P Q f [] g h = tt
All-map-imp P Q f (r ∷ rs) g h = (g r h.0, All-map-imp P Q f rs g h.1)

pub HasUnique-map :
    {A : Type 0} (key : A → ℕ) (f : A → A) (rs : List A)
    → ((r : A) → key (f r) ≡ key r)
    → HasUnique key rs
    → HasUnique key (map f rs)
HasUnique-map key f [] same h = tt
HasUnique-map key f (r ∷ rs) same h = (
  All-map-imp (λ s. key s ≢ key r) (λ s. key s ≢ key (f r)) f rs
      (λ s apart e. apart (sym (same s) ∙ e ∙ same r)) h.0,
  HasUnique-map key f rs same h.1,
)

-- The search by a unique key of a row finds the row.
pub find-by-key :
    {Row : Type 0} (t : Table Row) (laws : IsTable t) (key : Row → ℕ) (u : Row) (rs : List Row)
    → HasUnique key rs
    → Memᴰ u rs
    → t.find (λ r. key r == key u) rs ≡ some u
find-by-key t laws key u rs ids member = elim (Option-cases (t.find (λ r. key r == key u) rs)) [
  | inl gone ↦ absurd (
      let miss =
        All-Memᴰ (λ r. (key r == key u) ≡ false) rs (laws.find_none (λ r. key r == key u) rs gone)
          member in
      ground arith)
  | inr (r, there) ↦
      let (hit, found) = laws.find_some (λ r. key r == key u) rs r there in
      let same : key r ≡ key u = ground arith in
      there
      ∙ ap some
          (All-Memᴰ (λ r. key r ≡ key u → r ≡ u) rs (same-by-key key u rs ids member) found same)
]
