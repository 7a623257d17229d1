-- ===== src/Wallet/Endings.antt =====
-- The money in the wallet when a withdrawal ends (`updateTransactionStatus`,
-- server/models/walletModel.js).
use support_block_miner.Base.{
  some, inl, inr, refl, ◌==◌, ◌≡◌, if◌then◌else◌, ℕ, String, Option-cases, ap, Bool-cases, true,
  ◌||◌, Option, ◌⊎◌, false, arith, Bool, none, [], ◌∷◌, List, All, map,
}
use support_block_miner.Base.Int.{pos, ◌+ℤ◌, ◌≤ℤ◌, ℤ, int_laws, pos_part, neg_part}
use support_block_miner.Wallet.State.{Wallet, WalletDb, IsWalletDb, add_to_balance}
use support_block_miner.Database.{Transaction, is_completed, is_failed, Status, User}
use support_block_miner.Engine.Numbers.{Numbers}
use support_block_miner.Base.Table.{
  sum_by, sum_by-update_found, update-HasUnique, update-All, find-All,
}
use support_block_miner.Wallet.Withdrawals.{update_transaction_status, with_status, is_refund}
use support_block_miner.Wallet.Funds.{
  IsSound, reserved, held, balances-add_to_balance, add_to_balance-IsSound,
}
use support_block_miner.Base.Http.{ok, throw, Result}

module _ (n : Numbers ℤ) (db : WalletDb) (laws : IsWalletDb db) where
  -- A change of a status keeps the amounts and the keys.
  pub with_status-IsSound :
      (id : ℕ) (status : Status) (tx_hash : Option String) (now : ℕ) (w : Wallet)
      → IsSound w
      → IsSound (record w {
        transactions =
            db.transactions.update
              (λ r. r.id == id)
              (with_status n db status tx_hash now)
              w.transactions;
      })
  with_status-IsSound id status tx_hash now w h = record {
    user_ids = h.user_ids;
    transaction_ids =
        update-HasUnique db.transactions laws.transactions (λ r. r.id) (λ r. r.id == id)
          (with_status n db status tx_hash now) w.transactions (λ r. refl) h.transaction_ids;
    solvent = h.solvent;
    amounts =
        update-All db.transactions laws.transactions (λ r. pos 0 ≤ℤ r.amount) (λ r. r.id == id)
          (with_status n db status tx_hash now) w.transactions (λ r a. a) h.amounts;
  }

  -- What the change of the status of `t` lets go of: an open withdrawal that is completed leaves the
  -- wallet.
  abbrev pub paid_out : Status → Transaction → ℤ
  paid_out status t = if is_completed status then reserved t else pos 0

  abbrev pub is_final : Status → Bool
  is_final status = is_completed status || is_failed status

  reserved-final :
      (status : Status) (tx_hash : Option String) (now : ℕ) (t : Transaction)
      → is_final status ≡ true
      → reserved (with_status n db status tx_hash now t) ≡ pos 0
  reserved-final status tx_hash now t final = ground arith

  reserved-kept :
      (status : Status) (t : Transaction)
      → is_final status ≡ true
      → is_refund n db status t ≡ false
      → reserved t ≡ paid_out status t
  reserved-kept status t final plain = ground arith

  pub reserved-refund :
      (status : Status) (t : Transaction)
      → is_refund n db status t ≡ true
      → (reserved t ≡ t.amount) × (paid_out status t ≡ pos 0)
  reserved-refund status t refund = ground arith

  module _ (id : ℕ) (status : Status) (tx_hash : Option String) (now : ℕ) (w : Wallet)
      (h : IsSound w) (final : is_final status ≡ true) {t : Transaction}
      (there : db.transactions.find (λ s. s.id == id) w.transactions ≡ some t) where
    abbrev pub relabelled : Wallet
    relabelled = record w {
      transactions =
          db.transactions.update (λ r. r.id == id) (with_status n db status tx_hash now)
            w.transactions;
    }

    -- The changed row reserves nothing any more.
    pub reserved-relabelled :
        sum_by reserved relabelled.transactions +ℤ reserved t ≡ sum_by reserved w.transactions
    reserved-relabelled =
        let change =
          sum_by-update_found db.transactions laws.transactions (λ r. r.id) id
            (with_status n db status tx_hash now) w.transactions reserved h.transaction_ids there in
        let nothing = reserved-final status tx_hash now t final in
        omega (
          int_laws,
          ap pos_part change,
          ap neg_part change,
          ap pos_part nothing,
          ap neg_part nothing,
        )

    held-plain : is_refund n db status t ≡ false → held relabelled +ℤ paid_out status t ≡ held w
    held-plain plain =
        let released = reserved-relabelled in
        rw (← reserved-kept status t final plain)
          (omega (int_laws, ap pos_part released, ap neg_part released))

    refund-conserves :
        {user : User}
        → is_refund n db status t ≡ true
        → db.users.find (λ r. r.id == t.user_id) w.users ≡ some user
        → let w' = add_to_balance n db t.user_id t.amount relabelled in
          IsSound w' × (held w' +ℤ paid_out status t ≡ held w)
    refund-conserves {user} refund found =
        let released = reserved-relabelled in
        let (all, nothing) = reserved-refund status t refund in
        let back = balances-add_to_balance n db laws t.user_id t.amount w h.user_ids found in
        let due : pos 0 ≤ℤ t.amount =
          find-All db.transactions laws.transactions (λ r. pos 0 ≤ℤ r.amount) (λ r. r.id == id)
            w.transactions h.amounts there in
        let rich : pos 0 ≤ℤ user.pol_balance =
          find-All db.users laws.users (λ r. pos 0 ≤ℤ r.pol_balance) (λ r. r.id == t.user_id)
            w.users h.solvent found in
        let sound = with_status-IsSound id status tx_hash now w h in
        (
          add_to_balance-IsSound n db laws t.user_id t.amount relabelled sound found
              (omega int_laws),
          rw nothing (
              omega (
                int_laws,
                ap pos_part released,
                ap neg_part released,
                ap pos_part back,
                ap neg_part back,
                ap pos_part all,
                ap neg_part all,
              )),
        )

  -- How a change of a status ends. The row is gone, and nothing changes; the user of a refund is gone, and
  -- the call throws and changes nothing; or the row has the status, and the money held in all is lower
  -- by what a completion pays out.
  abbrev pub Ended : ℕ → Status → Wallet → Result Bool → Wallet → Type 0
  Ended id status w r w' =
      ((db.transactions.find (λ s. s.id == id) w.transactions ≡ none) × (w' ≡ w))
      ⊎ ((t : Transaction) × (db.transactions.find (λ s. s.id == id) w.transactions ≡ some t)
          × (((r ≡ throw "Record to update not found.")
                × (is_failed status ≡ true)
                × (db.users.find (λ u. u.id == t.user_id) w.users ≡ none)
                × (w' ≡ w))
              ⊎ ((r ≡ ok true)
                  × All (λ x. x.id ≡ id → x.status ≡ status) w'.transactions
                  × (held w' +ℤ paid_out status t ≡ held w))))

  map-status :
      (id : ℕ) (status : Status) (tx_hash : Option String) (now : ℕ) (rows : List Transaction)
      → All
          (λ x. x.id ≡ id → x.status ≡ status)
          (map (λ x. if x.id == id then with_status n db status tx_hash now x else x) rows)
  map-status id status tx_hash now [] = tt
  map-status id status tx_hash now (r ∷ rows) = (
    elim (Bool-cases (r.id == id)) [
      | inl hit ↦ rw hit (λ e. refl)
      | inr miss ↦ rw miss (λ e. absurd (ground arith))
    ],
    map-status id status tx_hash now rows,
  )

  update-status :
      (id : ℕ) (status : Status) (tx_hash : Option String) (now : ℕ) (rows : List Transaction)
      → All
          (λ x. x.id ≡ id → x.status ≡ status)
          (db.transactions.update (λ r. r.id == id) (with_status n db status tx_hash now) rows)
  update-status id status tx_hash now rows =
      rw
        (laws.transactions.update_rows (λ r. r.id == id) (with_status n db status tx_hash now) rows)
        (map-status id status tx_hash now rows)

  -- The end of a withdrawal, completed or failed, leaves the wallet sound. Where the row is there and no
  -- refund is due to a user who is gone, the row has the status, a failure leaves the money held in all as
  -- it was, and a completion lowers it by what the withdrawal had reserved. Without the row nothing
  -- changes, and a failure that cannot give the amount back throws and changes nothing.
  pub update_transaction_status-conserves :
      (id : ℕ) (status : Status) (tx_hash : Option String) (now : ℕ) (w : Wallet)
      → IsSound w
      → (is_completed status || is_failed status) ≡ true
      → let (r, w') = update_transaction_status n db id status tx_hash now w in
        IsSound w' × Ended id status w r w'
  unfolding update_transaction_status
  update_transaction_status-conserves id status tx_hash now w h final =
      elim (Option-cases (db.transactions.find (λ t. t.id == id) w.transactions)) [
        | inl gone ↦ rw (gone, update_transaction_status) (h, inl (refl, refl))
        | inr (t, there) ↦ elim (Bool-cases (is_refund n db status t)) [
          | inr plain ↦
              let sound = with_status-IsSound id status tx_hash now w h in
              let kept = held-plain id status tx_hash now w h final there plain in
              rw (there, plain, update_transaction_status)
                (
                  sound,
                  inr (
                    t,
                    refl,
                    inr (refl, update-status id status tx_hash now w.transactions, kept),
                  ),
                )
          | inl refund ↦ elim (Option-cases (db.users.find (λ r. r.id == t.user_id) w.users)) [
            | inl nobody ↦
                let lost : is_failed status ≡ true = ground arith in
                rw (there, refund, nobody, update_transaction_status)
                  (h, inr (t, refl, inl (refl, lost, nobody, refl)))
            | inr (user, found) ↦
                let (sound, kept) =
                  refund-conserves id status tx_hash now w h final there refund found in
                rw (there, refund, found, update_transaction_status)
                  (
                    sound,
                    inr (
                      t,
                      refl,
                      inr (refl, update-status id status tx_hash now w.transactions, kept),
                    ),
                  )
          ]
        ]
      ]
