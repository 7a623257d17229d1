-- ===== src/Checkin/Paid.antt =====
-- That a paid check-in is confirmed by a payment (server/controllers/checkinController.js,
-- server/services/checkinChain.js).
use support_block_miner.Checkin.State.{DailyCheckin, is_row_of, is_confirmed}
use support_block_miner.Checkin.Chain.{
  PaymentChain, Payment, Evaluation, tx_confirmed, tx_pending, tx_failed, evaluate_checkin_tx,
  judge_value, judge_receipt, judge_tx,
}
use support_block_miner.Checkin.Claims.{
  CheckinSettings, checked_in, already_checked_in, payment_pending, CheckinAnswer, confirm_checkin,
  confirm_payment, settle, dup_error, is_confirmed_row, await_payment, pending_row, CheckinAnswer,
  fail_row, wait_for, confirm_paid,
}
use support_block_miner.Wallet.Deposits.{Answer, rpc_error, missing, found}
use text.Mathlib.Text.{◌==◌ as str_eq}
use text.Mathlib.TextEquality.{eq_iff}
use support_block_miner.Base.{
  none, some, true, false, inl, inr, refl, ◌≤◌, ◌≡◌, arith, ℕ, String, Bool, Option, Bool-cases,
  ltb, List, Option-cases, [], ◌∷◌, if◌then◌else◌, All, All-imp, sym, All-append, ◌==◌,
}
use support_block_miner.Base.Http.{accepted, rejected, Response}
use support_block_miner.Base.Table.{Table, IsTable, All-map-imp, All-members}
use support_block_miner.Base.Text.{is_hex_text, codes}
use mathlib.Core.Path.{subst}
use mathlib.Core.List.{Memᴰ}

-- What the chain says of a payment: it came from the wallet, went to the receiver, is large enough and
-- has succeeded.
abbrev pub IsPayment : PaymentChain → String → String → String → ℕ → Type 0
IsPayment chain hash wallet receiver min =
    (p : Payment) × (value : ℕ) × (chain.get_tx hash ≡ found p)
    × (p.sender ≡ wallet)
    × (p.to ≡ receiver)
    × (p.value ≡ some value)
    × (min ≤ value)
    × (chain.get_receipt hash ≡ found true)

judge_receipt-confirmed : (a : Answer Bool) → judge_receipt a ≡ some tx_confirmed → a ≡ found true
judge_receipt-confirmed rpc_error h = cc
judge_receipt-confirmed missing h = cc
judge_receipt-confirmed (found false) h = cc
judge_receipt-confirmed (found true) h = refl

judge_value-confirmed :
    (v : Option ℕ) (min : ℕ) (a : Answer Bool)
    → judge_value v min a ≡ some tx_confirmed
    → (value : ℕ) × (v ≡ some value) × (min ≤ value) × (a ≡ found true)
judge_value-confirmed none min a h = absurd (ground arith)
judge_value-confirmed (some value) min a h = elim (Bool-cases (ltb value min)) [
  | inl low ↦ absurd (ground arith)
  | inr enough ↦ (value, refl, ground arith, judge_receipt-confirmed a (ground arith))
]

judge_tx-confirmed :
    (wallet receiver : String) (min : ℕ) (receipt : Answer Bool) (a : Answer Payment)
    → judge_tx wallet receiver min receipt a ≡ some tx_confirmed
    → (p : Payment) × (value : ℕ) × (a ≡ found p)
      × (p.sender ≡ wallet)
      × (p.to ≡ receiver)
      × (p.value ≡ some value)
      × (min ≤ value)
      × (receipt ≡ found true)
judge_tx-confirmed wallet receiver min receipt rpc_error h = cc
judge_tx-confirmed wallet receiver min receipt missing h = cc
judge_tx-confirmed wallet receiver min receipt (found p) h =
    let (value, given, enough, good) = judge_value-confirmed p.value min receipt (ground arith) in
    (
      p,
      value,
      refl,
      (eq_iff p.sender wallet).0 (ground arith),
      (eq_iff p.to receiver).0 (ground arith),
      given,
      enough,
      good,
    )

module _ (s : CheckinSettings) (db : Table DailyCheckin) (laws : IsTable db) where
  -- What a confirmed payment shows.
  abbrev pub IsPaidCheckin :
      PaymentChain → ℕ → ℕ → Option String → Option String → List DailyCheckin → Type 0
  IsPaidCheckin chain today u tx_hash wallet rows =
      (receiver : String) × (hash : String) × (w : String) × (s.receiver ≡ some receiver)
      × (tx_hash ≡ some hash)
      × (wallet ≡ some w)
      × (is_hex_text 64 (codes hash) ≡ true)
      × (dup_error s db u today (db.find (λ r. str_eq r.tx_hash hash) rows) ≡ none)
      × IsPayment chain hash w receiver s.min_wei

  -- Every confirmed row is one of these.
  abbrev pub IsOld : List DailyCheckin → DailyCheckin → Type 0
  IsOld before r = is_confirmed r.status ≡ true → Memᴰ r before

  IsOld-refl : (rows : List DailyCheckin) → All (IsOld rows) rows
  IsOld-refl rows = All-imp (λ r. Memᴰ r rows) (IsOld rows) rows (λ r m h. m) (All-members rows)

  -- A change that confirms no row.
  update-IsOld :
      (before : List DailyCheckin) (p : DailyCheckin → Bool) (f : DailyCheckin → DailyCheckin)
      (rows : List DailyCheckin)
      → ((r : DailyCheckin) → is_confirmed (f r).status ≡ false)
      → All (IsOld before) rows
      → All (IsOld before) (db.update p f rows)
  update-IsOld before p f rows plain h = rw (laws.update_rows p f rows) (
      All-map-imp (IsOld before) (IsOld before) (λ r. if p r then f r else r) rows
        (λ r old. elim (Bool-cases (p r)) [
          | inl hit ↦ rw hit (λ yes. absurd (let no = plain r in ground arith))
          | inr miss ↦ rw miss old
        ])
        h)

  await_payment-IsOld :
      (id now today u : ℕ) (hash : String) (rows : List DailyCheckin)
      → All (IsOld rows) (await_payment s db id now today u hash rows)
  unfolding await_payment
  await_payment-IsOld id now today u hash rows =
      elim (Option-cases (db.find (is_row_of u today) rows)) [
        | inl new ↦
            rw (new, await_payment, laws.create_rows (pending_row s db id now today u hash) rows)
              (All-append (IsOld rows) rows (pending_row s db id now today u hash ∷ [])
                (IsOld-refl rows) ((λ h. absurd (ground arith)), tt))
        | inr (r, there) ↦
            rw (there, await_payment)
              (update-IsOld rows (λ x. x.id == r.id) (wait_for s db hash) rows (λ x. refl)
                (IsOld-refl rows))
      ]

  -- What an answer says of the rows: a check-in is confirmed for a payment, and with any other answer
  -- every confirmed row stood there before, as does then each one of another user or day.
  abbrev pub Settled :
      ℕ → ℕ → Type 0 → List DailyCheckin → Response CheckinAnswer × List DailyCheckin → Type 0
  Settled today u Paid rows (accepted checked_in, rows') =
      Paid × All (λ r. is_row_of u today r ≡ false → IsOld rows r) rows'
  Settled today u Paid rows (accepted already_checked_in, rows') = rows' ≡ rows
  Settled today u Paid rows (accepted payment_pending, rows') = All (IsOld rows) rows'
  Settled today u Paid rows (rejected status message, rows') = All (IsOld rows) rows'

  confirm-IsOld :
      (now today u : ℕ) (before rows : List DailyCheckin)
      → All (IsOld before) rows
      → All
          (λ r. is_row_of u today r ≡ false → IsOld before r)
          (db.update (is_row_of u today) (confirm_paid s db now) rows)
  confirm-IsOld now today u before rows h =
      rw (laws.update_rows (is_row_of u today) (confirm_paid s db now) rows) (
        All-map-imp (IsOld before) (λ r. is_row_of u today r ≡ false → IsOld before r)
          (λ r. if is_row_of u today r then confirm_paid s db now r else r) rows
          (λ r old. elim (Bool-cases (is_row_of u today r)) [
            | inl hit ↦ rw hit (λ off. absurd (let on = hit in ground arith))
            | inr miss ↦ rw miss (λ off. old)
          ])
          h)

  settle-Settled :
      (now today u : ℕ) (e : Option Evaluation) (before rows : List DailyCheckin)
      → All (IsOld before) rows
      → Settled today u (e ≡ some tx_confirmed) before (settle s db now today u e rows)
  settle-Settled now today u none before rows h = h
  settle-Settled now today u (some tx_pending) before rows h = h
  settle-Settled now today u (some (tx_failed reason)) before rows h =
      update-IsOld before (is_row_of u today) (fail_row s db) rows (λ r. refl) h
  settle-Settled now today u (some tx_confirmed) before rows h =
      (refl, confirm-IsOld now today u before rows h)

  Settled-imp :
      (today u : ℕ) (P Q : Type 0) (rows : List DailyCheckin)
      (answer : Response CheckinAnswer × List DailyCheckin)
      → (P → Q)
      → Settled today u P rows answer
      → Settled today u Q rows answer
  Settled-imp today u P Q rows (accepted checked_in, rows') f h = (f h.0, h.1)
  Settled-imp today u P Q rows (accepted already_checked_in, rows') f h = h
  Settled-imp today u P Q rows (accepted payment_pending, rows') f h = h
  Settled-imp today u P Q rows (rejected status message, rows') f h = h

  abbrev IsPaidBy : PaymentChain → ℕ → ℕ → String → String → String → List DailyCheckin → Type 0
  IsPaidBy chain today u receiver hash wallet rows =
      (dup_error s db u today (db.find (λ r. str_eq r.tx_hash hash) rows) ≡ none)
      × IsPayment chain hash wallet receiver s.min_wei

  confirm_payment-Settled :
      (chain : PaymentChain) (id now today u : ℕ) (receiver hash wallet : String)
      (rows : List DailyCheckin)
      → Settled today u
          (IsPaidBy chain today u receiver hash wallet rows)
          rows
          (confirm_payment s db chain id now today u receiver hash wallet rows)
  unfolding confirm_payment
  confirm_payment-Settled chain id now today u receiver hash wallet rows =
      elim (Bool-cases (is_confirmed_row s db (db.find (is_row_of u today) rows))) [
        | inl done ↦ rw (done, confirm_payment) refl
        | inr on ↦
            elim (Option-cases
              (dup_error s db u today (db.find (λ r. str_eq r.tx_hash hash) rows))) [
                | inr (message, twice) ↦ rw (on, twice, confirm_payment) (IsOld-refl rows)
                | inl once ↦
                    let e = evaluate_checkin_tx chain hash wallet receiver s.min_wei in
                    let waiting = await_payment s db id now today u hash rows in
                    rw (on, once, confirm_payment)
                      (Settled-imp today u (e ≡ some tx_confirmed)
                        ((none ≡ none) × IsPayment chain hash wallet receiver s.min_wei) rows
                        (settle s db now today u e waiting)
                        (λ h. (
                          refl,
                          judge_tx-confirmed wallet receiver s.min_wei (chain.get_receipt hash)
                              (chain.get_tx hash) h,
                        ))
                        (settle-Settled now today u e rows waiting
                          (await_payment-IsOld id now today u hash rows)))
              ]
      ]

  -- Where `confirmCheckin` confirms a check-in, the chain shows the payment: it came from the wallet of
  -- the user, went to the receiver, is at least the required amount and has succeeded; its hash is well
  -- formed, and no row of another user or of another day that the search finds has it. Every row
  -- of another user or day that is confirmed afterwards was there before, and with any other answer every
  -- confirmed row was.
  pub confirm_checkin-paid :
      (chain : PaymentChain) (id now today u : ℕ) (tx_hash wallet : Option String)
      (rows : List DailyCheckin)
      → Settled today u
          (IsPaidCheckin chain today u tx_hash wallet rows)
          rows
          (confirm_checkin s db chain id now today u tx_hash wallet rows)
  unfolding confirm_checkin
  confirm_checkin-paid chain id now today u tx_hash wallet rows =
      let P = IsPaidCheckin chain today u tx_hash wallet rows in
      let from =
        λ (answer : Response CheckinAnswer × List DailyCheckin)
            (run : confirm_checkin s db chain id now today u tx_hash wallet rows ≡ answer)
            (h : Settled today u P rows answer).
          subst (Settled today u P rows) (sym run) h in
      elim (Option-cases s.receiver) [
        | inl off ↦
            from
              (
                rejected 400
                    "Pagamento on-chain desativado. Usa o botão de check-in diário (sem POL).",
                rows,
              )
              (rw (off, confirm_checkin) refl) (IsOld-refl rows)
        | inr (receiver, pay) ↦ elim (Option-cases tx_hash) [
          | inl no_text ↦
              from (rejected 400 "Invalid transaction hash.", rows)
                (rw (pay, no_text, confirm_checkin) refl) (IsOld-refl rows)
          | inr (hash, text) ↦ elim (Bool-cases (is_hex_text 64 (codes hash))) [
            | inr bad ↦
                from (rejected 400 "Invalid transaction hash.", rows)
                  (rw (pay, text, bad, confirm_checkin) refl) (IsOld-refl rows)
            | inl hex ↦ elim (Option-cases wallet) [
              | inl unlinked ↦
                  from
                    (
                      rejected 400
                          "Link and verify your wallet in the Wallet page before check-in.",
                      rows,
                    )
                    (rw (pay, text, hex, unlinked, confirm_checkin) refl) (IsOld-refl rows)
              | inr (w, linked) ↦
                  from (confirm_payment s db chain id now today u receiver hash w rows)
                    (rw (pay, text, hex, linked, confirm_checkin) refl)
                    (Settled-imp today u (IsPaidBy chain today u receiver hash w rows) P rows
                      (confirm_payment s db chain id now today u receiver hash w rows)
                      (λ h. (receiver, hash, w, pay, text, linked, hex, h.0, h.1))
                      (confirm_payment-Settled chain id now today u receiver hash w rows))
            ]
          ]
        ]
      ]
