-- ===== src/Base/Text.antt =====
-- Tests on texts by their code points.
use Prim.Native.Nat.{ℕ, zero, suc}
use Prim.Native.Char.{code}
use Prim.Native.String.{String}
use mathlib.Core.Bool.{Bool, true, false, ◌&&◌, ◌||◌}
use mathlib.Core.List.{List, [], ◌∷◌}
use mathlib.Core.Option.{Option, none, some}
use mathlib.Core.Path.{◌≡◌, refl, ap}
use text.Mathlib.Text.{◌==◌ as str_eq}
use text.Mathlib.TextEquality.{eq_iff}
use support_block_miner.Base.Tests.{◌==◌, leb}

abbrev pub codes : String → List ℕ
codes String.[] = []
codes (String.◌∷◌ c s) = code c ∷ codes s

-- `[0-9a-fA-F]`
abbrev pub is_hex_digit : ℕ → Bool
is_hex_digit c =
    (leb b'0' c && leb c b'9') || (leb b'a' c && leb c b'f') || (leb b'A' c && leb c b'F')

-- `[0-9a-fA-F]{n}$`
unfoldable pub are_hex_digits : ℕ → List ℕ → Bool
are_hex_digits zero [] = true
are_hex_digits (suc n) (c ∷ cs) = is_hex_digit c && are_hex_digits n cs
are_hex_digits _ _ = false

-- `^0x[0-9a-fA-F]{n}$`
abbrev pub is_hex_text : ℕ → List ℕ → Bool
is_hex_text n (z ∷ x ∷ cs) = z == b'0' && x == b'x' && are_hex_digits n cs
is_hex_text n _ = false

-- `a === b` on texts that may be null
abbrev pub same_text : Option String → Option String → Bool
same_text none none = true
same_text (some a) (some b) = str_eq a b
same_text _ _ = false

pub same_text-some : (a b : Option String) → same_text a b ≡ true → a ≡ b
same_text-some none none h = refl
same_text-some (some a) (some b) h = ap some ((eq_iff a b).0 h)
same_text-some none (some b) h = cc
same_text-some (some a) none h = cc

pub same_text_refl : (a : Option String) → same_text a a ≡ true
same_text_refl none = refl
same_text_refl (some a) = (eq_iff a a).1 refl
