-- ===== src/Sessions/Cookies.antt =====
-- Where the token of a request is (server/utils/token.js). A text is the list of its code units;
-- `decode` is `decodeURIComponent`, none where it throws.
use support_block_miner.Sessions.Split.{split, join}
use support_block_miner.Base.Http.{Result, ok, throw}
use support_block_miner.Base.{
  none, some, true, false, [], ◌∷◌, ◌==◌, ◌&&◌, ◌||◌, if◌then◌else◌, ℕ, Bool, List, Option, leb,
  length,
}
use support_block_miner.Base.Text.{codes}

-- The white space of `trim`.
abbrev pub is_space : ℕ → Bool
is_space c =
    (leb 9 c && leb c 13)
    || c == 32
    || c == 160
    || c == 5760
    || (leb 8192 c && leb c 8202)
    || c == 8232
    || c == 8233
    || c == 8239
    || c == 8287
    || c == 12288
    || c == 65279

abbrev pub trim_start : List ℕ → List ℕ
trim_start [] = []
trim_start (c ∷ cs) = let rest = trim_start cs in if is_space c then rest else c ∷ cs

abbrev pub trim_end : List ℕ → List ℕ
trim_end [] = []
trim_end (c ∷ cs) = elim (trim_end cs) [
  | [] ↦ if is_space c then [] else c ∷ []
  | d ∷ ds ↦ c ∷ d ∷ ds
]

-- `text.trim()`
abbrev pub trim : List ℕ → List ℕ
trim cs = trim_end (trim_start cs)

abbrev pub same_codes : List ℕ → List ℕ → Bool
same_codes [] [] = true
same_codes (c ∷ cs) (d ∷ ds) = c == d && same_codes cs ds
same_codes _ _ = false

-- The object that `parseCookie` fills, the newest entry first.
abbrev pub CookieJar : Type 0
CookieJar = List (List ℕ × List ℕ)

-- `cookies[name]`
abbrev pub cookie : List ℕ → CookieJar → Option (List ℕ)
cookie name [] = none
cookie name ((key, value) ∷ jar) = if same_codes key name then some value else cookie name jar

-- `a || null` on texts
abbrev pub nonempty : Option (List ℕ) → Option (List ℕ)
nonempty (some (c ∷ cs)) = some (c ∷ cs)
nonempty _ = none

abbrev pub first_of : Option (List ℕ) → Option (List ℕ) → Option (List ℕ)
first_of (some a) b = some a
first_of none b = b

module _ (decode : List ℕ → Option (List ℕ)) where
  -- One part of the header; a part without a key is passed over.
  abbrev pub add_cookie : List (List ℕ) → CookieJar → Result CookieJar
  add_cookie [] jar = ok jar
  add_cookie ([] ∷ values) jar = ok jar
  add_cookie ((k ∷ ks) ∷ values) jar = elim (decode (join b'=' values)) [
    | none ↦ throw "URI malformed"
    | some value ↦ ok ((k ∷ ks, value) ∷ jar)
  ]

  abbrev pub add_cookies : List (List ℕ) → CookieJar → Result CookieJar
  add_cookies [] jar = ok jar
  add_cookies (part ∷ parts) jar = elim (add_cookie (split b'=' (trim part)) jar) [
    | throw message ↦ throw message
    | ok jar' ↦ add_cookies parts jar'
  ]

  -- `parseCookie(headerValue)`
  unfoldable pub parse_cookie : List ℕ → Result CookieJar
  parse_cookie [] = ok []
  parse_cookie (c ∷ cs) = add_cookies (split b';' (c ∷ cs)) []

  -- `parts.every((part) => part.length > 0)`
  abbrev pub are_nonempty : List (List ℕ) → Bool
  are_nonempty [] = true
  are_nonempty ([] ∷ parts) = false
  are_nonempty ((_ ∷ _) ∷ parts) = are_nonempty parts

  -- `looksLikeJwt(value)`
  unfoldable pub looks_like_jwt : List ℕ → Bool
  looks_like_jwt value =
      let parts = split b'.' (trim value) in length parts == 3 && are_nonempty parts

  -- The name of the cookie of a user, of an older session and of an administrator.
  abbrev pub access_cookie_name : List ℕ
  access_cookie_name = codes "blockminer_access"

  abbrev pub legacy_session_cookie : List ℕ
  legacy_session_cookie = codes "blockminer_session"

  abbrev pub admin_session_cookie : List ℕ
  admin_session_cookie = codes "blockminer_admin_session"

  -- The rest of the `authorization` header after `Bearer `, trimmed; none where it is another scheme.
  abbrev pub bearer_token : Option (List ℕ) → Option (List ℕ)
  unfolding looks_like_jwt
  bearer_token none = none
  bearer_token (some rest) = if looks_like_jwt (trim rest) then some (trim rest) else none

  -- `getTokenFromRequest(req)`
  unfoldable pub get_token_from_request : List ℕ → Option (List ℕ) → Result (Option (List ℕ))
  unfolding parse_cookie looks_like_jwt
  get_token_from_request cookie_header bearer = elim (parse_cookie cookie_header) [
    | throw message ↦ throw message
    | ok jar ↦ ok (
        first_of
          (first_of (nonempty (cookie access_cookie_name jar))
            (nonempty (cookie legacy_session_cookie jar)))
          (bearer_token bearer))
  ]

  abbrev pub refresh_cookie_name : List ℕ
  refresh_cookie_name = codes "blockminer_refresh"

  -- `getRefreshTokenFromRequest(req)`
  unfoldable pub get_refresh_token_from_request : List ℕ → Result (Option (List ℕ))
  unfolding parse_cookie
  get_refresh_token_from_request cookie_header = elim (parse_cookie cookie_header) [
    | throw message ↦ throw message
    | ok jar ↦ ok (nonempty (cookie refresh_cookie_name jar))
  ]

  -- `getAdminTokenFromRequest(req)`
  unfoldable pub get_admin_token_from_request : List ℕ → Option (List ℕ) → Result (Option (List ℕ))
  unfolding parse_cookie looks_like_jwt
  get_admin_token_from_request cookie_header bearer = elim (parse_cookie cookie_header) [
    | throw message ↦ throw message
    | ok jar ↦ ok (first_of (nonempty (cookie admin_session_cookie jar)) (bearer_token bearer))
  ]
