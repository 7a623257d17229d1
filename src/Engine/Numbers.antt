-- ===== src/Engine/Numbers.antt =====
-- JavaScript numbers as the engine uses them: a type with its operations, which the engine's
-- functions take as an argument, so that nothing is assumed of their rounding. A decimal literal is
-- `ratio p q`. NaN is not among the values: of two numbers one is at most the other.
use support_block_miner.Base.{ℕ, Bool, not, ◌≡◌, if◌then◌else◌}

pub record Numbers (Num : Type 0) : Type 0 where
  pub ratio : ℕ → ℕ → Num
  pub add : Num → Num → Num
  pub sub : Num → Num → Num
  pub mul : Num → Num → Num
  pub div : Num → Num → Num
  pub leb : Num → Num → Bool
  pub falsy : Num → Bool

module _ {Num : Type 0} (n : Numbers Num) where
  abbrev pub zero_number : Num
  zero_number = n.ratio 0 1

  abbrev pub less : Num → Num → Bool
  less a b = not (n.leb b a)

  -- `a || b`
  abbrev pub or_number : Num → Num → Num
  or_number a b = if n.falsy a then b else a

  -- `Math.max` and `Math.min`
  abbrev pub max_number : Num → Num → Num
  max_number a b = if n.leb a b then b else a

  abbrev pub min_number : Num → Num → Num
  min_number a b = if n.leb a b then a else b

-- What an exact arithmetic adds. The statements that rest on it name it; doubles satisfy it where no
-- operation rounds.
pub record IsExact {Num : Type 0} (n : Numbers Num) : Type 0 where
  pub add_sub_cancel : (a b : Num) → n.sub (n.add a b) b ≡ a
  pub sub_add_add : (a b r : Num) → n.sub (n.add a r) (n.add b r) ≡ n.sub a b
