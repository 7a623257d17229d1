-- ===== src/Sessions/Passwords.antt =====
-- The changes of passwords (server/routes/auth.js), where `JWT_SECRET` is set. A text from a request
-- stands as `trim` leaves it where the handler trims it.
use support_block_miner.Base.Table.{Table}
use support_block_miner.Base.Http.{Response, accepted, rejected}
use support_block_miner.Base.Text.{same_text, codes}
use support_block_miner.Base.{
  none, some, false, [], ◌∷◌, ◌==◌, ◌||◌, if◌then◌else◌, ℕ, not, is_some, String, Option, List,
  Bool, ltb, ◌+◌,
}

-- The columns of `model User` that sign a user in.
pub record Account : Type 0 where
  pub id : ℕ
  pub name : String
  pub username : Option String
  pub email : String
  pub password_hash : String

-- The tests of the database on texts (`equals`, `endsWith` and `contains`, without regard to case),
-- `toLowerCase` and `includes("@")`.
pub record TextTests : Type 0 where
  pub equals : String → String → Bool
  pub ends_with : String → String → Bool
  pub contains : String → String → Bool
  pub to_lower_case : String → String
  pub has_at : String → Bool

-- The libraries and the environment: `bcrypt`, the tokens of a reset (`signPasswordResetToken`, and the
-- `sub` of `verifyPasswordResetToken`), `isSmtpConfigured` and `ADMIN_SECURITY_CODE`, none where it is not set.
pub record AuthSettings : Type 0 where
  pub hash_password : String → String
  pub compare_password : String → String → Bool
  pub sign_reset_token : ℕ → String
  pub verify_reset_token : String → Option ℕ
  pub is_smtp_configured : Bool
  pub security_code : Option String

pub data ResetAnswer : Type 0 where
  mail_sent unknown_email : ResetAnswer
  reset_token : String → ResetAnswer

-- The `length` of a text in JavaScript, which counts code units of 16 bits.
abbrev pub code_units : List ℕ → ℕ
code_units [] = 0
code_units (c ∷ cs) = (if ltb c 65_536 then 1 else 2) + code_units cs

abbrev pub is_short : String → Bool
is_short password = ltb (code_units (codes password)) 8

abbrev pub newer : Account → Option Account → Option Account
newer a none = some a
newer a (some b) = if ltb a.id b.id then some b else some a

-- `orderBy: { id: "desc" }`
abbrev pub newest : List Account → Option Account
newest [] = none
newest (a ∷ rest) = newer a (newest rest)

module _ (db : Table Account) (t : TextTests) (s : AuthSettings) where
  abbrev pub equals_username : Option String → String → Bool
  equals_username none identifier = false
  equals_username (some name) identifier = t.equals name identifier

  abbrev pub is_named : String → Account → Bool
  is_named identifier a =
      t.equals a.email (t.to_lower_case identifier)
      || equals_username a.username identifier
      || t.equals a.name identifier

  -- `findUserByIdentifier(identifier)`
  unfoldable pub find_user_by_identifier : String → List Account → Option Account
  find_user_by_identifier identifier accounts = elim (db.find (is_named identifier) accounts) [
    | some a ↦ some a
    | none ↦
        if t.has_at identifier
        then newest (
            db.find_many
              (λ a.
                t.ends_with a.email (t.to_lower_case identifier)
                || t.contains a.email (t.to_lower_case identifier))
              accounts)
        else none
  ]

  abbrev pub set_password : ℕ → String → List Account → List Account
  set_password id password accounts =
      db.update (λ a. a.id == id) (λ a. record a { password_hash = s.hash_password password })
        accounts

  -- `POST /forgot-password`, past its limiter; an empty text is none.
  unfoldable pub forgot_password : Option String → List Account → Response ResetAnswer
  unfolding find_user_by_identifier
  forgot_password none accounts = rejected 400 "Email é obrigatório."
  forgot_password (some email) accounts =
      elim (find_user_by_identifier (t.to_lower_case email) accounts) [
        | none ↦ accepted unknown_email
        | some a ↦
            if s.is_smtp_configured
            then accepted mail_sent
            else accepted (reset_token (s.sign_reset_token a.id))
      ]

  -- From the token on.
  unfoldable pub reset_with : String → Option ℕ → List Account → Response (Unit {0}) × List Account
  reset_with password none accounts =
      (rejected 401 "Token de reset inválido ou expirado.", accounts)
  reset_with password (some id) accounts = elim (db.find (λ a. a.id == id) accounts) [
    | none ↦ (rejected 404 "Usuário não encontrado.", accounts)
    | some a ↦ (accepted tt, set_password a.id password accounts)
  ]

  -- `POST /legacy-password-reset`; an empty text is none.
  unfoldable pub legacy_password_reset :
      Option String → Option String → List Account → Response (Unit {0}) × List Account
  unfolding reset_with
  legacy_password_reset none password accounts = (rejected 400 "Dados inválidos.", accounts)
  legacy_password_reset (some token) none accounts = (rejected 400 "Dados inválidos.", accounts)
  legacy_password_reset (some token) (some password) accounts =
      if is_short password
      then (rejected 400 "Dados inválidos.", accounts)
      else reset_with password (s.verify_reset_token token) accounts

  -- `POST /reset-password-manual`; without a password `bcrypt.hash` throws.
  unfoldable pub reset_password_manual :
      Option String → String → Option String → List Account → Response (Unit {0}) × List Account
  reset_password_manual admin_key email password accounts =
      if same_text admin_key s.security_code
      then elim (db.find (λ a. same_text (some a.email) (some email)) accounts) [
        | none ↦ (rejected 404 "User not found.", accounts)
        | some a ↦ elim password [
          | none ↦ (rejected 500 "Erro no reset manual.", accounts)
          | some p ↦ (accepted tt, set_password a.id p accounts)
        ]
      ]
      else (rejected 403 "Unauthorized manual reset.", accounts)

  -- `POST /admin/force-password-reset`; an empty text is none.
  unfoldable pub force_password_reset :
      Option String → String → Option String → List Account → Response (Unit {0}) × List Account
  unfolding find_user_by_identifier
  force_password_reset admin_key email password accounts =
      if not (is_some admin_key) || not (same_text admin_key s.security_code)
      then (rejected 403 "Chave de admin inválida.", accounts)
      else elim password [
        | none ↦ (rejected 400 "Nova senha inválida.", accounts)
        | some p ↦
            if is_short p
            then (rejected 400 "Nova senha inválida.", accounts)
            else elim (find_user_by_identifier (t.to_lower_case email) accounts) [
              | none ↦ (rejected 404 "Usuário não encontrado.", accounts)
              | some a ↦ (accepted tt, set_password a.id p accounts)
            ]
      ]

  -- `POST /change-password`, past the check of the body.
  unfoldable pub change_password :
      ℕ → String → String → List Account → Response (Unit {0}) × List Account
  change_password u current password accounts = elim (db.find (λ a. a.id == u) accounts) [
    | none ↦ (rejected 401 "Senha atual incorreta.", accounts)
    | some a ↦
        if s.compare_password current a.password_hash
        then (accepted tt, set_password a.id password accounts)
        else (rejected 401 "Senha atual incorreta.", accounts)
  ]
