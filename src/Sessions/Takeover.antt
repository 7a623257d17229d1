-- ===== src/Sessions/Takeover.antt =====
-- What a request without a password can do to an account (server/routes/auth.js).
use support_block_miner.Base.Table.{All-Memᴰ, keep-Memᴰ}
use support_block_miner.Sessions.Passwords.{
  newest, newer, is_named, Account, TextTests, AuthSettings, reset_token, is_short,
  find_user_by_identifier, forgot_password, reset_with, legacy_password_reset,
}
use support_block_miner.Base.Table.{Table, IsTable}
use support_block_miner.Base.Http.{accepted}
use support_block_miner.Base.{
  some, [], ◌∷◌, inl, inr, refl, ◌==◌, ◌≡◌, if◌then◌else◌, arith, ℕ, none, true, false, ◌||◌,
  String, List, All, map, Bool-cases, Option-cases, ap, ◌∙◌, sym, keep, ltb,
}
use mathlib.Core.List.{Memᴰ}
use mathlib.Core.Path.{subst}

module _ (db : Table Account) (laws : IsTable db) (t : TextTests) (s : AuthSettings) where
  -- Some account has the password of the request.
  abbrev pub HasPassword : ℕ → String → List Account → Type 0
  HasPassword id password accounts =
      All (λ a. a.id ≡ id → a.password_hash ≡ s.hash_password password) accounts

  map-HasPassword :
      (id : ℕ) (password : String) (accounts : List Account)
      → HasPassword id password (
          map
            (λ a. if a.id == id then record a { password_hash = s.hash_password password } else a)
            accounts)
  map-HasPassword id password [] = tt
  map-HasPassword id password (a ∷ rest) = (
    elim (Bool-cases (a.id == id)) [
      | inl hit ↦ rw hit (λ e. refl)
      | inr miss ↦ rw miss (λ e. absurd (ground arith))
    ],
    map-HasPassword id password rest,
  )

  newest-Memᴰ : (accounts : List Account) (a : Account) → newest accounts ≡ some a → Memᴰ a accounts
  newest-Memᴰ [] a h = cc
  newest-Memᴰ (b ∷ rest) a h = elim (Option-cases (newest rest)) [
    | inl none_left ↦
        let same : newer b none ≡ some a = ap (newer b) (sym none_left) ∙ h in
        let e : a ≡ b = cc in Memᴰ.head e
    | inr (c, there) ↦
        let either : newer b (some c) ≡ some a = ap (newer b) (sym there) ∙ h in
        elim (Bool-cases (ltb b.id c.id)) [
          | inl later ↦
              let e : c ≡ a = ground arith in Memᴰ.tail (newest-Memᴰ rest a (there ∙ ap some e))
          | inr first ↦ let e : a ≡ b = ground arith in Memᴰ.head e
        ]
  ]

  find_user_by_identifier-Memᴰ :
      (identifier : String) (a : Account) (accounts : List Account)
      → find_user_by_identifier db t s identifier accounts ≡ some a
      → Memᴰ a accounts
  unfolding find_user_by_identifier
  find_user_by_identifier-Memᴰ identifier a accounts =
      elim (Option-cases (db.find (is_named db t s identifier) accounts)) [
        | inr (b, there) ↦
            rw (there, find_user_by_identifier)
              (λ h. let e : b ≡ a = cc in (laws.find_some _ _ _ (there ∙ ap some e)).1)
        | inl nobody ↦ elim (Bool-cases (t.has_at identifier)) [
          | inr plain ↦ rw (nobody, plain, find_user_by_identifier) (λ h. absurd (ground arith))
          | inl at ↦
              let p = λ (x : Account).
                t.ends_with x.email (t.to_lower_case identifier)
                || t.contains x.email (t.to_lower_case identifier) in
              rw (nobody, at, find_user_by_identifier, laws.find_many_rows p accounts)
                (λ h.
                  (All-Memᴰ (λ x. (p x ≡ true) × Memᴰ x accounts) (keep p accounts)
                    (keep-Memᴰ p accounts) (newest-Memᴰ (keep p accounts) a h)).1)
        ]
      ]

  reset_with-Memᴰ :
      (password : String) (a : Account) (accounts : List Account)
      → Memᴰ a accounts
      → ((reset_with db t s password (some a.id) accounts).0 ≡ accepted tt)
        × HasPassword a.id password (reset_with db t s password (some a.id) accounts).1
  unfolding reset_with
  reset_with-Memᴰ password a accounts member =
      elim (Option-cases (db.find (λ x. x.id == a.id) accounts)) [
        | inl gone ↦ absurd (
            let miss =
              All-Memᴰ (λ x. (x.id == a.id) ≡ false) accounts
                (laws.find_none (λ x. x.id == a.id) accounts gone) member in
            ground arith)
        | inr (b, there) ↦
            let key : b.id ≡ a.id = (let hit = (laws.find_some _ _ _ there).0 in ground arith) in
            rw (there, reset_with)
              (
                refl,
                rw
                    (laws.update_rows (λ x. x.id == b.id)
                      (λ x. record x { password_hash = s.hash_password password }) accounts)
                    (subst
                      (λ k. HasPassword k password (
                        map
                          (λ x.
                            if x.id == b.id
                            then record x { password_hash = s.hash_password password }
                            else x)
                          accounts))
                      key (map-HasPassword b.id password accounts)),
              )
      ]

  -- Where no mail can be sent, a request that names an account gets a token back, with which a second
  -- request gives the account any password of 8 characters: neither asks for more than the name. A reset
  -- token is read back as the key of its user.
  pub forgot_password-legacy_password_reset :
      (email password : String) (a : Account) (accounts : List Account)
      → find_user_by_identifier db t s (t.to_lower_case email) accounts ≡ some a
      → s.is_smtp_configured ≡ false
      → s.verify_reset_token (s.sign_reset_token a.id) ≡ some a.id
      → is_short password ≡ false
      → let token = s.sign_reset_token a.id in
        let after = legacy_password_reset db t s (some token) (some password) accounts in
        (forgot_password db t s (some email) accounts ≡ accepted (reset_token token))
        × (after.0 ≡ accepted tt)
        × HasPassword a.id password after.1
  unfolding forgot_password legacy_password_reset
  forgot_password-legacy_password_reset email password a accounts known no_mail read long =
      let member = find_user_by_identifier-Memᴰ (t.to_lower_case email) a accounts known in
      let (done, set) = reset_with-Memᴰ password a accounts member in
      (
        rw (known, no_mail, forgot_password) refl,
        rw (long, read, legacy_password_reset) done,
        rw (long, read, legacy_password_reset) set,
      )
