-- ===== src/Checkin/Claims.antt =====
-- The handlers of server/controllers/checkinController.js that change check-ins.
use support_block_miner.Checkin.State.{
  DailyCheckin, checkin_pending, checkin_confirmed, checkin_failed, is_row_of, is_checkin_pending,
  is_confirmed,
}
use support_block_miner.Checkin.Chain.{
  PaymentChain, Evaluation, tx_confirmed, tx_pending, tx_failed, evaluate_checkin_tx,
}
use support_block_miner.Base.Table.{Table}
use support_block_miner.Base.Text.{is_hex_text, codes}
use support_block_miner.Base.Http.{Response, accepted, rejected}
use text.Mathlib.Text.{◌==◌ as str_eq}
use support_block_miner.Base.{
  none, some, false, [], ◌∷◌, ◌+◌, ◌*◌, ◌&&◌, ◌||◌, if◌then◌else◌, ℕ, not, Option, List, String,
  Bool, ◌==◌, leb,
}

-- The environment: the receiver as `normalizeAddr` leaves it, none where payments are off
-- (`paymentCheckinEnabled`), the payment in wei and the chain. `free_hash` is `syntheticFreeTxHash`.
pub record CheckinSettings : Type 0 where
  pub receiver : Option String
  pub min_wei : ℕ
  pub chain_id : ℕ
  pub free_hash : ℕ → ℕ → String

pub data CheckinAnswer : Type 0 where
  already_checked_in payment_pending checked_in : CheckinAnswer

module _ (s : CheckinSettings) (db : Table DailyCheckin) where
  abbrev pub free_row : ℕ → ℕ → ℕ → ℕ → DailyCheckin
  free_row id now today u = record {
    id = id;
    user_id = u;
    checkin_date = today;
    created_at = now;
    confirmed_at = some now;
    tx_hash = s.free_hash u today;
    status = checkin_confirmed;
    amount = 0;
    chain_id = s.chain_id;
  }

  abbrev pub confirm_free : ℕ → ℕ → ℕ → DailyCheckin → DailyCheckin
  confirm_free now today u r = record r {
    tx_hash = s.free_hash u today;
    status = checkin_confirmed;
    confirmed_at = some now;
    amount = 0;
    chain_id = s.chain_id;
  }

  -- `dailyCheckin.upsert` of `claimCheckin`.
  unfoldable pub upsert_free : ℕ → ℕ → ℕ → ℕ → List DailyCheckin → List DailyCheckin
  upsert_free id now today u rows = elim (db.find (is_row_of u today) rows) [
    | none ↦ db.create (free_row id now today u) rows
    | some _ ↦ db.update (is_row_of u today) (confirm_free now today u) rows
  ]

  abbrev pub is_confirmed_row : Option DailyCheckin → Bool
  is_confirmed_row none = false
  is_confirmed_row (some r) = is_confirmed r.status

  -- Whether another row than that of the user and the day has the hash of the free check-in: `txHash` is
  -- unique, so that the upsert then throws.
  abbrev pub has_free_hash : ℕ → ℕ → DailyCheckin → Bool
  has_free_hash u today r = str_eq r.tx_hash (s.free_hash u today) && not (is_row_of u today r)

  -- `claimCheckin(req, res)`
  unfoldable pub claim_checkin :
      ℕ → ℕ → ℕ → ℕ → List DailyCheckin → Response CheckinAnswer × List DailyCheckin
  unfolding upsert_free
  claim_checkin id now today u rows =
      if is_confirmed_row (db.find (is_row_of u today) rows)
      then (accepted already_checked_in, rows)
      else elim (db.find (has_free_hash u today) rows) [
        | some _ ↦ (rejected 500 "Unable to register check-in.", rows)
        | none ↦ (accepted checked_in, upsert_free id now today u rows)
      ]

  abbrev pub confirm_paid : ℕ → DailyCheckin → DailyCheckin
  confirm_paid now r = record r {
    status = checkin_confirmed;
    confirmed_at = some now;
    amount = s.min_wei;
    chain_id = s.chain_id;
  }

  abbrev pub fail_row : DailyCheckin → DailyCheckin
  fail_row r = record r { status = checkin_failed }

  abbrev pub wait_for : String → DailyCheckin → DailyCheckin
  wait_for hash r = record r { tx_hash = hash; status = checkin_pending; confirmed_at = none }

  abbrev pub pending_row : ℕ → ℕ → ℕ → ℕ → String → DailyCheckin
  pending_row id now today u hash = record {
    id = id;
    user_id = u;
    checkin_date = today;
    created_at = now;
    confirmed_at = none;
    tx_hash = hash;
    status = checkin_pending;
    amount = s.min_wei;
    chain_id = s.chain_id;
  }

  -- `tryFinalizeCheckinRow(row)`; the wallet is that of the user, as `normalizeAddr` leaves it.
  unfoldable pub try_finalize_checkin_row :
      PaymentChain → ℕ → Option String → DailyCheckin → List DailyCheckin → List DailyCheckin
  try_finalize_checkin_row chain now wallet r rows =
      if not (is_checkin_pending r.status)
        || str_eq r.tx_hash (s.free_hash r.user_id r.checkin_date)
      then rows
      else elim wallet [
        | none ↦ rows
        | some w ↦ elim s.receiver [
          | none ↦ rows
          | some receiver ↦ elim (evaluate_checkin_tx chain r.tx_hash w receiver s.min_wei) [
            | none ↦ rows
            | some tx_pending ↦ rows
            | some tx_confirmed ↦ db.update (λ x. x.id == r.id) (confirm_paid now) rows
            | some (tx_failed _) ↦ db.update (λ x. x.id == r.id) fail_row rows
          ]
        ]
      ]

  -- `tryFinalizeTodayCheckin(userId, walletAddress)`
  unfoldable pub try_finalize_today_checkin :
      PaymentChain → ℕ → ℕ → ℕ → Option String → List DailyCheckin → List DailyCheckin
  unfolding try_finalize_checkin_row
  try_finalize_today_checkin chain now today u wallet rows =
      elim (db.find (is_row_of u today) rows) [
        | none ↦ rows
        | some r ↦ try_finalize_checkin_row chain now wallet r rows
      ]

  -- What `getStatus(req, res)` changes, where payments are on.
  unfoldable pub get_checkin_status :
      PaymentChain → ℕ → ℕ → ℕ → Option String → List DailyCheckin → List DailyCheckin
  unfolding try_finalize_today_checkin
  get_checkin_status chain now today u wallet rows = elim s.receiver [
    | none ↦ rows
    | some _ ↦ try_finalize_today_checkin chain now today u wallet rows
  ]

  -- The loop of `processStalePendingCheckins` over the rows that it has read.
  unfoldable pub finalize_each :
      PaymentChain
      → ℕ
      → (ℕ → Option String)
      → List DailyCheckin
      → List DailyCheckin
      → List DailyCheckin
  unfolding try_finalize_checkin_row
  finalize_each chain now wallet_of [] rows = rows
  finalize_each chain now wallet_of (r ∷ rs) rows =
      finalize_each chain now wallet_of rs
        (try_finalize_checkin_row chain now (wallet_of r.user_id) r rows)

  abbrev pub three_days_ms : ℕ
  three_days_ms = 72 * 3_600_000

  -- `processStalePendingCheckins`; `oldest` orders by `createdAt` and takes the first `batchSize`.
  unfoldable pub process_stale_pending_checkins :
      PaymentChain
      → ℕ
      → (ℕ → Option String)
      → (List DailyCheckin → List DailyCheckin)
      → List DailyCheckin
      → List DailyCheckin
  unfolding finalize_each
  process_stale_pending_checkins chain now wallet_of oldest rows =
      finalize_each chain now wallet_of
        (oldest (
          db.find_many (λ r. is_checkin_pending r.status && leb now (r.created_at + three_days_ms))
            rows))
        rows

  -- The row of the day waits for the payment.
  unfoldable pub await_payment : ℕ → ℕ → ℕ → ℕ → String → List DailyCheckin → List DailyCheckin
  await_payment id now today u hash rows = elim (db.find (is_row_of u today) rows) [
    | none ↦ db.create (pending_row id now today u hash) rows
    | some r ↦ db.update (λ x. x.id == r.id) (wait_for hash) rows
  ]

  abbrev pub settle :
      ℕ → ℕ → ℕ → Option Evaluation → List DailyCheckin → Response CheckinAnswer × List DailyCheckin
  settle now today u none rows = (accepted payment_pending, rows)
  settle now today u (some tx_pending) rows = (accepted payment_pending, rows)
  settle now today u (some (tx_failed reason)) rows =
      (rejected 400 reason, db.update (is_row_of u today) fail_row rows)
  settle now today u (some tx_confirmed) rows =
      (accepted checked_in, db.update (is_row_of u today) (confirm_paid now) rows)

  -- The checks of the other row with the hash.
  abbrev pub dup_error : ℕ → ℕ → Option DailyCheckin → Option String
  dup_error u today none = none
  dup_error u today (some dup) =
      if not (dup.user_id == u)
      then some "This transaction is already used by another account."
      else if not (dup.checkin_date == today)
      then some "This transaction was already used for a previous check-in day."
      else none

  -- From the wallet on.
  unfoldable pub confirm_payment :
      PaymentChain
      → ℕ
      → ℕ
      → ℕ
      → ℕ
      → String
      → String
      → String
      → List DailyCheckin
      → Response CheckinAnswer × List DailyCheckin
  unfolding await_payment
  confirm_payment chain id now today u receiver hash wallet rows =
      if is_confirmed_row (db.find (is_row_of u today) rows)
      then (accepted already_checked_in, rows)
      else elim (dup_error u today (db.find (λ r. str_eq r.tx_hash hash) rows)) [
        | some message ↦ (rejected 400 message, rows)
        | none ↦
            settle now today u (evaluate_checkin_tx chain hash wallet receiver s.min_wei)
              (await_payment id now today u hash rows)
      ]

  -- `confirmCheckin(req, res)`; the hash is that of the body without blanks around it, none where it is
  -- no text; the wallet is as `normalizeAddr` leaves it.
  unfoldable pub confirm_checkin :
      PaymentChain
      → ℕ
      → ℕ
      → ℕ
      → ℕ
      → Option String
      → Option String
      → List DailyCheckin
      → Response CheckinAnswer × List DailyCheckin
  unfolding confirm_payment
  confirm_checkin chain id now today u tx_hash wallet rows = elim s.receiver [
    | none ↦ (
      rejected 400 "Pagamento on-chain desativado. Usa o botão de check-in diário (sem POL).",
      rows,
    )
    | some receiver ↦ elim tx_hash [
      | none ↦ (rejected 400 "Invalid transaction hash.", rows)
      | some hash ↦
          if is_hex_text 64 (codes hash)
          then elim wallet [
            | none ↦ (
              rejected 400 "Link and verify your wallet in the Wallet page before check-in.",
              rows,
            )
            | some w ↦ confirm_payment chain id now today u receiver hash w rows
          ]
          else (rejected 400 "Invalid transaction hash.", rows)
    ]
  ]
