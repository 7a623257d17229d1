-- ===== src/Sessions/Csrf.antt =====
-- The middleware of server/middleware/csrf.js.
use text.Mathlib.Text.{◌==◌ as str_eq}
use support_block_miner.Sessions.Cookies.{parse_cookie, cookie, same_codes, CookieJar}
use support_block_miner.Base.Http.{ok, throw, Result-cases}
use support_block_miner.Base.{
  none, some, true, [], ◌∷◌, if◌then◌else◌, ℕ, not, List, Option, Bool, ltb, length, false, inl,
  inr, refl, ◌≤◌, ◌≡◌, arith, ap, ◌⊎◌, ◌∙◌, Bool-cases, ◌&&◌, ◌||◌, ◌++◌, String, ◌==◌, sym,
}
use support_block_miner.Base.Text.{codes}

-- What the middleware does: it calls `next`, it refuses, or the header of the cookies makes it throw.
pub data Passage : Type 0 where
  passed refused thrown : Passage

abbrev pub csrf_cookie_name : List ℕ
csrf_cookie_name = codes "blockminer_csrf"

-- A request: the `cookie` header, the method in upper case, the URL with its query (`originalUrl`), and the
-- `x-csrf-token` header.
pub record CsrfRequest : Type 0 where
  pub cookie_header : List ℕ
  pub method : String
  pub url : List ℕ
  pub header_token : Option (List ℕ)

-- The token of the request, or a fresh one where it has none of 16 characters.
abbrev pub csrf_token : List ℕ → Option (List ℕ) → List ℕ
csrf_token fresh none = fresh
csrf_token fresh (some token) = if ltb (length token) 16 then fresh else token

-- `!headerToken || headerToken !== csrfToken`
abbrev pub is_mismatch : Option (List ℕ) → List ℕ → Bool
is_mismatch none token = true
is_mismatch (some []) token = true
is_mismatch (some (c ∷ cs)) token = not (same_codes (c ∷ cs) token)

-- `text.startsWith(part)`
abbrev pub starts_with : List ℕ → List ℕ → Bool
starts_with [] text = true
starts_with (c ∷ part) [] = false
starts_with (c ∷ part) (d ∷ text) = c == d && starts_with part text

-- `text.includes(part)`
abbrev pub includes : List ℕ → List ℕ → Bool
includes part [] = starts_with part []
includes part (c ∷ text) = starts_with part (c ∷ text) || includes part text

abbrev pub is_exempt : List ℕ → Bool
is_exempt url = includes (codes "/socket.io/") url || includes (codes "/api/zerads/callback") url

abbrev pub changes_state : String → Bool
changes_state method =
    str_eq method "POST" || str_eq method "PUT" || str_eq method "DELETE" || str_eq method "PATCH"

-- The middleware; the token is the fresh one that `crypto` gives.
unfoldable pub csrf_middleware : (List ℕ → Option (List ℕ)) → List ℕ → CsrfRequest → Passage
csrf_middleware decode fresh req = elim (parse_cookie decode req.cookie_header) [
  | throw _ ↦ thrown
  | ok jar ↦
      if is_exempt req.url
      then passed
      else if changes_state req.method
      then if is_mismatch req.header_token (csrf_token fresh (cookie csrf_cookie_name jar))
        then refused
        else passed
      else passed
]

same_codes-eq : (a b : List ℕ) → same_codes a b ≡ true → a ≡ b
same_codes-eq [] [] h = refl
same_codes-eq [] (d ∷ ds) h = cc
same_codes-eq (c ∷ cs) [] h = cc
same_codes-eq (c ∷ cs) (d ∷ ds) h =
    let head : c ≡ d = ground arith in
    let tail = same_codes-eq cs ds (ground arith) in ap (λ x. x ∷ cs) head ∙ ap (λ xs. d ∷ xs) tail

is_mismatch-false :
    (h : Option (List ℕ)) (token : List ℕ) → is_mismatch h token ≡ false → h ≡ some token
is_mismatch-false none token e = cc
is_mismatch-false (some []) token e = cc
is_mismatch-false (some (c ∷ cs)) token e = ap some (same_codes-eq (c ∷ cs) token (ground arith))

-- The token that the middleware compares with is the fresh one or that of the cookie, of 16 characters
-- at least.
csrf_token-cases :
    (fresh : List ℕ) (o : Option (List ℕ))
    → (csrf_token fresh o ≡ fresh)
      ⊎ ((o ≡ some (csrf_token fresh o)) × (16 ≤ length (csrf_token fresh o)))
csrf_token-cases fresh none = inl refl
csrf_token-cases fresh (some token) = elim (Bool-cases (ltb (length token) 16)) [
  | inl short ↦ rw short (inl refl)
  | inr long ↦ rw long (inr (refl, ground arith))
]

-- The text has the part somewhere.
abbrev pub Contains : List ℕ → List ℕ → Type 0
Contains part text = (before : List ℕ) × (after : List ℕ) × (text ≡ before ++ part ++ after)

starts_with-rest :
    (part text : List ℕ) → starts_with part text ≡ true → (after : List ℕ) × (text ≡ part ++ after)
starts_with-rest [] text h = (text, refl)
starts_with-rest (c ∷ part) [] h = cc
starts_with-rest (c ∷ part) (d ∷ text) h =
    let head : c ≡ d = ground arith in
    let (after, tail) = starts_with-rest part text (ground arith) in
    (after, ap (λ x. x ∷ text) (sym head) ∙ ap (λ xs. c ∷ xs) tail)

includes-Contains : (part text : List ℕ) → includes part text ≡ true → Contains part text
includes-Contains part [] h = let (after, e) = starts_with-rest part [] h in ([], after, e)
includes-Contains part (c ∷ text) h = elim (Bool-cases (starts_with part (c ∷ text))) [
  | inl here ↦ let (after, e) = starts_with-rest part (c ∷ text) here in ([], after, e)
  | inr later ↦
      let (before, after, e) = includes-Contains part text (ground arith) in
      (c ∷ before, after, ap (λ xs. c ∷ xs) e)
]

-- The URL has none of the exempt texts.
abbrev pub IsChecked : List ℕ → Type 0
IsChecked url =
    (¬ Contains (codes "/socket.io/") url) × (¬ Contains (codes "/api/zerads/callback") url)

abbrev pub ChangesState : String → Type 0
ChangesState method =
    (method ≡ "POST") ⊎ ((method ≡ "PUT") ⊎ ((method ≡ "DELETE") ⊎ (method ≡ "PATCH")))

is_exempt-IsChecked : (url : List ℕ) → IsChecked url → is_exempt url ≡ false
is_exempt-IsChecked url (no_socket, no_callback) =
    elim (Bool-cases (includes (codes "/socket.io/") url)) [
      | inl hit ↦ absurd (no_socket (includes-Contains (codes "/socket.io/") url hit))
      | inr first ↦ elim (Bool-cases (includes (codes "/api/zerads/callback") url)) [
        | inl hit ↦ absurd (no_callback (includes-Contains (codes "/api/zerads/callback") url hit))
        | inr neither ↦ rw (first, neither) refl
      ]
    ]

changes_state-ChangesState : (method : String) → ChangesState method → changes_state method ≡ true
changes_state-ChangesState method (inl e) = rw e refl
changes_state-ChangesState method (inr (inl e)) = rw e refl
changes_state-ChangesState method (inr (inr (inl e))) = rw e refl
changes_state-ChangesState method (inr (inr (inr e))) = rw e refl

module _ (decode : List ℕ → Option (List ℕ)) where
  -- The request shows the token: in the cookie, of 16 characters at least, and in the header.
  abbrev pub ShowsToken : List ℕ → CsrfRequest → Type 0
  ShowsToken fresh req =
      (token : List ℕ) × (jar : CookieJar) × (parse_cookie decode req.cookie_header ≡ ok jar)
      × (req.header_token ≡ some token)
      × ((token ≡ fresh) ⊎ ((cookie csrf_cookie_name jar ≡ some token) × (16 ≤ length token)))

  -- A request of method POST, PUT, DELETE or PATCH, whose URL with its query has neither of the two exempt
  -- texts anywhere, passes only with one token in the header and in the cookie, of 16 characters at
  -- least, or with the fresh token.
  pub csrf_middleware-passed :
      (fresh : List ℕ) (req : CsrfRequest)
      → ChangesState req.method
      → IsChecked req.url
      → csrf_middleware decode fresh req ≡ passed
      → ShowsToken fresh req
  unfolding csrf_middleware
  csrf_middleware-passed fresh req of_method of_url =
      let changes = changes_state-ChangesState req.method of_method in
      let checked = is_exempt-IsChecked req.url of_url in
      elim (Result-cases (parse_cookie decode req.cookie_header)) [
        | inr (message, bad) ↦ rw (bad, csrf_middleware) (λ h. absurd (ground arith))
        | inl (jar, read) ↦
            elim (Bool-cases
              (is_mismatch req.header_token (csrf_token fresh (cookie csrf_cookie_name jar)))) [
                | inl differ ↦
                    rw (read, checked, changes, differ, csrf_middleware)
                      (λ h. absurd (ground arith))
                | inr agree ↦ λ h. (
                  csrf_token fresh (cookie csrf_cookie_name jar),
                  jar,
                  read,
                  is_mismatch-false req.header_token
                      (csrf_token fresh (cookie csrf_cookie_name jar)) agree,
                  csrf_token-cases fresh (cookie csrf_cookie_name jar),
                )
              ]
      ]
