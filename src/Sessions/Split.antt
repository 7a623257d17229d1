-- ===== src/Sessions/Split.antt =====
-- `split` and `join` of a text at a code unit, on lists of code units.
use support_block_miner.Base.{
  false, [], ◌∷◌, inl, inr, refl, ◌==◌, ◌≡◌, ◌≢◌, ◌++◌, if◌then◌else◌, arith, ℕ, List, All, ==_self,
  Bool-cases, ap, sym, ◌∙◌,
}
use mathlib.Core.Path.{subst}

-- `text.split(separator)`
abbrev pub split : ℕ → List ℕ → List (List ℕ)
split at [] = [] ∷ []
split at (c ∷ cs) =
    let rest = split at cs in
    if c == at
    then [] ∷ rest
    else elim rest [ [] ↦ (c ∷ []) ∷ [] | part ∷ parts ↦ (c ∷ part) ∷ parts ]

-- `parts.join(separator)`
abbrev pub join : ℕ → List (List ℕ) → List ℕ
join at [] = []
join at (p ∷ ps) = elim ps [ [] ↦ p | _ ∷ _ ↦ p ++ at ∷ join at ps ]

-- The code unit is not in the text.
abbrev pub Lacks : ℕ → List ℕ → Type 0
Lacks at cs = All (λ c. c ≢ at) cs

-- A text without the separator is one part.
pub split-Lacks : (at : ℕ) (cs : List ℕ) → Lacks at cs → split at cs ≡ cs ∷ []
split-Lacks at [] h = refl
split-Lacks at (c ∷ cs) h =
    let miss : (c == at) ≡ false = (let apart = h.0 in ground arith) in
    rw (miss, split-Lacks at cs h.1) refl

-- The first part ends at the first separator.
pub split-append :
    (at : ℕ) (xs ys : List ℕ) → Lacks at xs → split at (xs ++ at ∷ ys) ≡ xs ∷ split at ys
split-append at [] ys h = (let hit = ==_self at in rw hit refl)
split-append at (c ∷ cs) ys h =
    let miss : (c == at) ≡ false = (let apart = h.0 in ground arith) in
    rw (miss, split-append at cs ys h.1) refl

-- There is a part.
pub split-cons :
    (at : ℕ) (cs : List ℕ) → (p : List ℕ) × (ps : List (List ℕ)) × (split at cs ≡ p ∷ ps)
split-cons at [] = ([], [], refl)
split-cons at (c ∷ cs) =
    let (p, ps, e) = split-cons at cs in
    elim (Bool-cases (c == at)) [
      | inl hit ↦ rw (hit, e) ([], p ∷ ps, refl)
      | inr miss ↦ rw (miss, e) (c ∷ p, ps, refl)
    ]

join-cons :
    (at c : ℕ) (p : List ℕ) (ps : List (List ℕ)) → join at ((c ∷ p) ∷ ps) ≡ c ∷ join at (p ∷ ps)
join-cons at c p [] = refl
join-cons at c p (q ∷ ps) = refl

-- Joining the parts gives the text back.
pub join-split : (at : ℕ) (cs : List ℕ) → join at (split at cs) ≡ cs
join-split at [] = refl
join-split at (c ∷ cs) =
    let (p, ps, e) = split-cons at cs in
    let rest : join at (p ∷ ps) ≡ cs = ap (join at) (sym e) ∙ join-split at cs in
    elim (Bool-cases (c == at)) [
      | inl hit ↦
          let same : at ≡ c = ground arith in
          rw (hit, e) (ap (λ x. at ∷ x) (join-split at cs) ∙ ap (λ x. x ∷ cs) same)
      | inr miss ↦ rw (miss, e) (join-cons at c p ps ∙ ap (λ x. c ∷ x) rest)
    ]

-- No part has the separator.
pub split-All-Lacks : (at : ℕ) (cs : List ℕ) → All (Lacks at) (split at cs)
split-All-Lacks at [] = (tt, tt)
split-All-Lacks at (c ∷ cs) =
    let (p, ps, e) = split-cons at cs in
    let rest : All (Lacks at) (p ∷ ps) = subst (λ x. All (Lacks at) x) e (split-All-Lacks at cs) in
    elim (Bool-cases (c == at)) [
      | inl hit ↦ rw (hit, e) (tt, rest)
      | inr miss ↦ let apart : c ≢ at = ground arith in rw (miss, e) ((apart, rest.0), rest.1)
    ]
