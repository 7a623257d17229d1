-- ===== src/Base/Table/Defs.antt =====
-- The database client (Prisma), which is not part of the repository: the handlers call it through
-- the record `Table`, and what they rely on is the record `IsTable`. The contents of a table are the
-- list of its rows, whose columns are those of server/prisma/schema.prisma.
use Prim.Native.Nat.{ℕ}
use mathlib.Core.Path.{◌≡◌}
use mathlib.Core.Logic.{◌≢◌}
use mathlib.Core.Bool.{Bool, true, false, not}
use mathlib.Core.Option.{Option, none, some}
use mathlib.Core.List.{List, [], ◌∷◌, ◌++◌, map, Memᴰ}
use support_block_miner.Base.Tests.{if◌then◌else◌}
use support_block_miner.Base.Lists.{keep, All}

-- `find` is `findFirst` and `findUnique`, `find_many` is `findMany` and, by its length, `count`;
-- `update` is `update` and `updateMany`, `delete` is
-- `delete` and `deleteMany`, each with its `where` as the Boolean test; `create` adds one row.
pub record Table (Row : Type 0) : Type 0 where
  pub find : (Row → Bool) → List Row → Option Row
  pub find_many : (Row → Bool) → List Row → List Row
  pub update : (Row → Bool) → (Row → Row) → List Row → List Row
  pub create : Row → List Row → List Row
  pub delete : (Row → Bool) → List Row → List Row

-- `find` gives some row that passes the test, where there is one, and not a particular one.
pub record IsTable {Row : Type 0} (t : Table Row) : Type 0 where
  pub find_some :
      (p : Row → Bool) (rs : List Row) (r : Row) → t.find p rs ≡ some r → (p r ≡ true) × Memᴰ r rs
  pub find_none : (p : Row → Bool) (rs : List Row) → t.find p rs ≡ none → All (λ r. p r ≡ false) rs
  pub find_many_rows : (p : Row → Bool) (rs : List Row) → t.find_many p rs ≡ keep p rs
  pub update_rows :
      (p : Row → Bool) (f : Row → Row) (rs : List Row)
      → t.update p f rs ≡ map (λ r. if p r then f r else r) rs
  pub create_rows : (r : Row) (rs : List Row) → t.create r rs ≡ rs ++ r ∷ []
  pub delete_rows : (p : Row → Bool) (rs : List Row) → t.delete p rs ≡ keep (λ r. not (p r)) rs

-- A column of numbers that no two rows share, such as a primary key.
abbrev pub HasUnique : {Row : Type 0} → (Row → ℕ) → List Row → Type 0
HasUnique key [] = Unit
HasUnique key (r ∷ rs) = All (λ s. key s ≢ key r) rs × HasUnique key rs
