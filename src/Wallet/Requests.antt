-- ===== src/Wallet/Requests.antt =====
-- What a request for a withdrawal can answer (`requestWithdrawal`,
-- server/controllers/walletController.js), and the jobs that end withdrawals
-- (server/models/walletModel.js, server/cron/withdrawalsCron.js).
use support_block_miner.Base.{
  none, some, true, false, ◌==◌, ◌≡◌, arith, ℕ, String, inl, inr, Option-cases, Option, ap, sym,
  ◌∙◌, is_some,
}
use support_block_miner.Base.Http.{accepted, rejected, ok, throw}
use support_block_miner.Base.Int.{◌≤ℤ◌, ℤ}
use support_block_miner.Engine.Numbers.{Numbers}
use support_block_miner.Wallet.State.{WalletDb, Wallet, pol}
use support_block_miner.Wallet.Withdrawals.{
  create_withdrawal, request_withdrawal, WithdrawalBody, new_withdrawal, is_pending_withdrawal_of,
  has_pending_withdrawal,
}
use support_block_miner.Database.{Transaction, User, pending}
use support_block_miner.Base.Text.{is_hex_text, codes}
use mathlib.Core.Path.{subst}

module _ (n : Numbers ℤ) (db : WalletDb) where
  -- The user whose balance covers an amount.
  abbrev pub IsCovered : ℕ → ℤ → Wallet → Type 0
  IsCovered u amount w =
      (user : User) × (db.users.find (λ r. r.id == u) w.users ≡ some user)
      × (amount ≤ℤ user.pol_balance)

  create_withdrawal-IsCovered :
      (id u : ℕ) (amount : ℤ) (address : String) (w : Wallet) {t : Transaction}
      → (create_withdrawal n db id u amount address w).0 ≡ ok t
      → IsCovered u amount w
  unfolding create_withdrawal
  create_withdrawal-IsCovered id u amount address w h =
      elim (Option-cases (db.users.find (λ r. r.id == u) w.users)) [
        | inl nobody ↦ absurd (ground arith)
        | inr (user, found) ↦ (user, found, ground arith)
      ]

  create_withdrawal-ok :
      (id u : ℕ) (amount : ℤ) (address : String) (w : Wallet) {t : Transaction}
      → (create_withdrawal n db id u amount address w).0 ≡ ok t
      → (t ≡ new_withdrawal n db id u amount address)
        × (db.transactions.find (is_pending_withdrawal_of u) w.transactions ≡ none)
  unfolding create_withdrawal
  create_withdrawal-ok id u amount address w h = ground arith

  create_withdrawal-throw :
      (id u : ℕ) (amount : ℤ) (address : String) (w : Wallet) {m : String}
      → (create_withdrawal n db id u amount address w).0 ≡ throw m
      → (create_withdrawal n db id u amount address w).1 ≡ w
  unfolding create_withdrawal
  create_withdrawal-throw id u amount address w h = ground arith

  -- An accepted request has called `createWithdrawal`, past all its checks.
  request-call :
      (id u : ℕ) (body : WithdrawalBody) (w : Wallet) {t : Transaction}
      → (request_withdrawal n db id u body w).0 ≡ accepted t
      → (parsed : ℤ) × (address : String) × (body.amount ≡ some (some parsed))
        × (body.address ≡ some address)
        × (pol 10 ≤ℤ parsed)
        × (is_hex_text 40 (codes address) ≡ true)
        × ((create_withdrawal n db id u parsed address w).0 ≡ ok t)
  unfolding request_withdrawal
  request-call id u body w h = elim (Option-cases body.amount) [
    | inl missing ↦ absurd (ground arith)
    | inr (none, unread) ↦ absurd (ground arith)
    | inr (some parsed, given) ↦ elim (Option-cases body.address) [
      | inl missing ↦ absurd (ground arith)
      | inr (address, where_to) ↦
          (parsed, address, given, where_to, ground arith, ground arith, ground arith)
    ]
  ]

  abbrev pub IsAddress : Option String → Type 0
  IsAddress none = ⊥
  IsAddress (some a) = is_hex_text 40 (codes a) ≡ true

  -- A request is accepted only for a well-formed address, an amount of at least 10 POL that the
  -- user's balance covers, and a user without a pending withdrawal; the accepted withdrawal is pending,
  -- has the requested amount and has its funds reserved.
  pub request_withdrawal-accepted :
      (id u : ℕ) (body : WithdrawalBody) (w : Wallet) {t : Transaction}
      → (request_withdrawal n db id u body w).0 ≡ accepted t
      → (pol 10 ≤ℤ t.amount)
        × (body.amount ≡ some (some t.amount))
        × (t.address ≡ body.address)
        × IsAddress body.address
        × (t.status ≡ pending)
        × (t.funds_reserved ≡ true)
        × (has_pending_withdrawal n db u w ≡ false)
        × IsCovered u t.amount w
  unfolding has_pending_withdrawal
  request_withdrawal-accepted id u body w {t} h =
      let (parsed, address, given, where_to, large, hex, called) = request-call id u body w h in
      let (made, first) = create_withdrawal-ok id u parsed address w called in
      let enough = create_withdrawal-IsCovered id u parsed address w called in
      let same : parsed ≡ t.amount = ap (λ x. x.amount) (sym made) in
      (
        subst (λ a. pol 10 ≤ℤ a) same large,
        given ∙ ap (λ a. some (some a)) same,
        ap (λ x. x.address) made ∙ sym where_to,
        subst IsAddress (sym where_to) hex,
        ap (λ x. x.status) made,
        ap (λ x. x.funds_reserved) made,
        ap is_some first,
        subst (λ a. IsCovered u a w) same enough,
      )

  -- A request that is rejected changes nothing.
  pub request_withdrawal-rejected :
      (id u : ℕ) (body : WithdrawalBody) (w : Wallet) {s : ℕ} {m : String}
      → (request_withdrawal n db id u body w).0 ≡ rejected s m
      → (request_withdrawal n db id u body w).1 ≡ w
  unfolding request_withdrawal create_withdrawal
  request_withdrawal-rejected id u body w h = ground arith
