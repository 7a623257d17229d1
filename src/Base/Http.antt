-- ===== src/Base/Http.antt =====
-- What a handler answers: `accepted` stands for a JSON body with `ok: true`, `rejected` for the
-- status and the message of one with `ok: false`.
use Prim.Native.Nat.{ℕ}
use Prim.Native.String.{String}
use mathlib.Core.Path.{◌≡◌, refl}
use mathlib.Core.Logic.{◌⊎◌, inl, inr}

pub data Response (A : Type 0) : Type 0 where
  accepted : A → Response A
  rejected : ℕ → String → Response A

-- A computation that may throw an `Error` with a message.
pub data Result (A : Type 0) : Type 0 where
  ok : A → Result A
  throw : String → Result A

pub Result-cases :
    {A : Type 0} (r : Result A)
    → ((a : A) × (r ≡ ok a)) ⊎ ((message : String) × (r ≡ throw message))
Result-cases (ok a) = inl (a, refl)
Result-cases (throw message) = inr (message, refl)
