-- ===== src/Base/Table/Memory.antt =====
-- A table in memory, which shows that the laws of the client can hold.
use mathlib.Core.Logic.{inl, inr}
use mathlib.Core.Path.{◌≡◌, refl, subst}
use mathlib.Core.Bool.{Bool, true, false, not}
use mathlib.Core.Option.{Option, none, some}
use mathlib.Core.List.{List, [], ◌∷◌, ◌++◌, map, Memᴰ}
use native.Mathlib.Omega.{arith}
use support_block_miner.Base.Tests.{if◌then◌else◌, Bool-cases}
use support_block_miner.Base.Lists.{keep, All}
use support_block_miner.Base.Table.Defs.{Table, IsTable}

module _ {Row : Type 0} where
  abbrev pub find_row : (Row → Bool) → List Row → Option Row
  find_row p [] = none
  find_row p (r ∷ rs) = if p r then some r else find_row p rs

  find_row-some :
      (p : Row → Bool) (rs : List Row) (r : Row) → find_row p rs ≡ some r → (p r ≡ true) × Memᴰ r rs
  find_row-some p [] r h = cc
  find_row-some p (x ∷ rs) r h = elim (Bool-cases (p x)) [
    | inl e ↦
        let q : x ≡ r = ground arith in
        (subst (λ y. p y ≡ true) q e, subst (λ y. Memᴰ y (x ∷ rs)) q (Memᴰ.head refl))
    | inr e ↦ let (h', m) = find_row-some p rs r (ground arith) in (h', Memᴰ.tail m)
  ]

  find_row-none :
      (p : Row → Bool) (rs : List Row) → find_row p rs ≡ none → All (λ r. p r ≡ false) rs
  find_row-none p [] h = tt
  find_row-none p (x ∷ rs) h = ground (arith, find_row-none p rs)

  abbrev pub memory : Table Row
  memory = record {
    find = find_row;
    find_many = keep;
    update = λ p f rs. map (λ r. if p r then f r else r) rs;
    create = λ r rs. rs ++ r ∷ [];
    delete = λ p rs. keep (λ r. not (p r)) rs;
  }

  pub memory-IsTable : IsTable memory
  memory-IsTable = record {
    find_some = find_row-some;
    find_none = find_row-none;
    find_many_rows = λ p rs. refl;
    update_rows = λ p f rs. refl;
    create_rows = λ r rs. refl;
    delete_rows = λ p rs. refl;
  }
