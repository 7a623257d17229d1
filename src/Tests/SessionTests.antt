-- ===== src/Tests/SessionTests.antt =====
-- Runs of the tokens, and their theorems at those inputs.
use text.Mathlib.Text.{◌==◌ as str_eq}
use support_block_miner.Sessions.Refresh.{
  create_refresh_token, parse_refresh_token, parse_refresh_token-create_refresh_token, IsToken,
  parse_refresh_token-IsToken,
}
use support_block_miner.Sessions.Cookies.{parse_cookie}
use support_block_miner.Sessions.Csrf.{
  CsrfRequest, csrf_middleware, csrf_middleware-passed, passed, ShowsToken, Contains,
}
use support_block_miner.Sessions.Nonces.{
  nonces_of, nonces_of-IsIncreasing, IsIncreasing, NonceCall, allocates, resets,
}
use support_block_miner.Base.Text.{codes}
use support_block_miner.Sessions.Passwords.{
  Account, TextTests, AuthSettings, reset_token, find_user_by_identifier, forgot_password,
  legacy_password_reset,
}
use support_block_miner.Sessions.Takeover.{HasPassword, forgot_password-legacy_password_reset}
use support_block_miner.Base.Table.{memory, memory-IsTable}
use support_block_miner.Base.Http.{accepted}
use support_block_miner.Base.{
  some, none, true, false, [], ◌∷◌, refl, ◌≡◌, arith, ℕ, List, inl, ◌≤◌, ◌-◌, ◌++◌, length, ap, ◌∙◌,
  length-append,
}

parse_refresh_token-create_refresh_token_example :
    parse_refresh_token
      (λ s. s)
      (create_refresh_token (λ s. s) 0 30 (b'a' ∷ b'1' ∷ []) (b'f' ∷ [])).token
    ≡ some (record { token_id = b'a' ∷ b'1' ∷ []; secret = b'f' ∷ []; token_hash = b'f' ∷ [] })
unfolding create_refresh_token
parse_refresh_token-create_refresh_token_example =
    parse_refresh_token-create_refresh_token (λ s. s) 0 30 b'a' b'f' (b'1' ∷ []) []
      (omega arith, (omega arith, tt)) (omega arith, tt)

abbrev fresh_token : List ℕ
fresh_token = codes "zzzzzzzzzzzzzzzz"

abbrev request : CsrfRequest
request = record {
  cookie_header = codes "theme=dark; blockminer_csrf=0123456789abcdef";
  method = "POST";
  url = codes "/api/swap";
  header_token = some (codes "0123456789abcdef");
}

let_in : csrf_middleware some fresh_token request ≡ passed
unfolding csrf_middleware parse_cookie
let_in = refl

-- A part that is longer than the text is not in it.
longer_part :
    (part text : List ℕ) → length text ≤ length part - 1 → 1 ≤ length part → ¬ Contains part text
longer_part part text short some_code (before, after, e) =
    let all = ap length e ∙ length-append (before ++ part) after in
    let rest = length-append before part in omega (arith, all, rest, short, some_code)

csrf_middleware-passed_example : ShowsToken some fresh_token request
csrf_middleware-passed_example =
    csrf_middleware-passed some fresh_token request (inl refl)
      (
        longer_part (codes "/socket.io/") (codes "/api/swap") (omega arith) (omega arith),
        longer_part (codes "/api/zerads/callback") (codes "/api/swap") (omega arith) (omega arith),
      )
      let_in

abbrev nonce_calls : List NonceCall
nonce_calls = allocates "137:a" 5 ∷ allocates "137:b" 9 ∷ resets "137:b" ∷ allocates "137:a" 5 ∷ []

nonces_of-IsIncreasing_example : IsIncreasing 0 (nonces_of (λ n. n) "137:a" nonce_calls [])
nonces_of-IsIncreasing_example =
    nonces_of-IsIncreasing (λ n. n) "137:a" nonce_calls [] (λ n small. refl) (refl, tt)
      (omega arith, (omega arith, (omega arith, tt))) tt

parse_refresh_token-IsToken_example :
    (parse_refresh_token (λ s. s) (b'a' ∷ b'.' ∷ b'f' ∷ [])
        ≡ some (record { token_id = b'a' ∷ []; secret = b'f' ∷ []; token_hash = b'f' ∷ [] })
      → IsToken
          (λ s. s)
          (b'a' ∷ b'.' ∷ b'f' ∷ [])
          (record { token_id = b'a' ∷ []; secret = b'f' ∷ []; token_hash = b'f' ∷ [] }))
    × (IsToken
          (λ s. s)
          (b'a' ∷ b'.' ∷ b'f' ∷ [])
          (record { token_id = b'a' ∷ []; secret = b'f' ∷ []; token_hash = b'f' ∷ [] })
        → parse_refresh_token (λ s. s) (b'a' ∷ b'.' ∷ b'f' ∷ [])
          ≡ some (record { token_id = b'a' ∷ []; secret = b'f' ∷ []; token_hash = b'f' ∷ [] }))
parse_refresh_token-IsToken_example =
    parse_refresh_token-IsToken (λ s. s) (b'a' ∷ b'.' ∷ b'f' ∷ [])
      (record { token_id = b'a' ∷ []; secret = b'f' ∷ []; token_hash = b'f' ∷ [] })

abbrev plain_tests : TextTests
plain_tests = record {
  equals = λ a b. str_eq a b;
  ends_with = λ a b. false;
  contains = λ a b. false;
  to_lower_case = λ a. a;
  has_at = λ a. true;
}

abbrev mailless_settings : AuthSettings
mailless_settings = record {
  hash_password = λ p. p;
  compare_password = λ p h. str_eq p h;
  sign_reset_token = λ id. "token";
  verify_reset_token = λ token. some 7;
  is_smtp_configured = false;
  security_code = none;
}

abbrev ana : Account
ana = record {
  id = 7;
  name = "Ana";
  username = none;
  email = "ana@mail";
  password_hash = "her password";
}

ana_is_found :
    find_user_by_identifier memory plain_tests mailless_settings "ana@mail" (ana ∷ []) ≡ some ana
unfolding find_user_by_identifier
ana_is_found = refl

forgot_password-legacy_password_reset_example :
    (forgot_password memory plain_tests mailless_settings (some "ana@mail") (ana ∷ [])
      ≡ accepted (reset_token "token"))
    × ((legacy_password_reset memory plain_tests mailless_settings
          (some "token")
          (some "my password")
          (ana ∷ [])).0
        ≡ accepted tt)
    × HasPassword memory memory-IsTable plain_tests mailless_settings 7 "my password" (
        (legacy_password_reset memory plain_tests mailless_settings
          (some "token")
          (some "my password")
          (ana ∷ [])).1)
forgot_password-legacy_password_reset_example =
    forgot_password-legacy_password_reset memory memory-IsTable plain_tests mailless_settings
      "ana@mail" "my password" ana (ana ∷ []) ana_is_found refl refl refl
