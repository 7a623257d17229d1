-- ===== src/Wallet/Refinement.antt =====
-- That the withdrawals do what the vault promises (server/models/walletModel.js,
-- server/controllers/walletController.js, server/cron/withdrawalsCron.js).
use support_block_miner.Wallet.Vault.{
  VaultStep, idle, reserve, give_back, pay, VaultRun, at_rest, and_then, VaultRun-append, vault,
  disbursed,
}
use support_block_miner.Wallet.Funds.{IsSound, reserved, balances-add_to_balance}
use support_block_miner.Wallet.Endings.{
  update_transaction_status-conserves, reserved-relabelled, reserved-refund, relabelled,
}
use support_block_miner.Wallet.State.{Wallet, WalletDb, IsWalletDb, add_to_balance}
use support_block_miner.Wallet.Withdrawals.{
  create_withdrawal, is_pending_withdrawal_of, new_withdrawal, update_transaction_status, is_refund,
  with_status,
}
use support_block_miner.Engine.Numbers.{Numbers}
use support_block_miner.Database.{Transaction, Status, is_completed, is_failed, User, is_withdrawal}
use support_block_miner.Base.{
  some, true, inl, inr, refl, ◌==◌, ◌≡◌, ◌||◌, arith, ℕ, String, Option, Option-cases, Bool-cases,
  ap, false, ◌&&◌,
}
use support_block_miner.Base.Int.{pos, ◌≤ℤ◌, ℤ, ltb_ℤ, int_laws, neg, pos_part, neg_part, ◌+ℤ◌}
use support_block_miner.Base.Table.{find-All, sum_by-create, sum_by, sum_by-update_found}
use support_block_miner.Wallet.Open.{is_open, IsUnsettled}

module _ (n : Numbers ℤ) (db : WalletDb) (laws : IsWalletDb db) where
  pub create_withdrawal-VaultStep :
      (id u : ℕ) (amount : ℤ) (address : String) (w : Wallet)
      → IsSound w
      → pos 0 ≤ℤ amount
      → VaultStep (vault w) (vault (create_withdrawal n db id u amount address w).1)
  unfolding create_withdrawal
  create_withdrawal-VaultStep id u amount address w h positive =
      elim (Option-cases (db.transactions.find (is_pending_withdrawal_of u) w.transactions)) [
        | inr (t, twice) ↦ rw (twice, create_withdrawal) (idle refl)
        | inl first ↦ elim (Option-cases (db.users.find (λ r. r.id == u) w.users)) [
          | inl nobody ↦ rw (first, nobody, create_withdrawal) (idle refl)
          | inr (user, found) ↦ elim (Bool-cases (ltb_ℤ user.pol_balance amount)) [
            | inl poor ↦ rw (first, found, poor, create_withdrawal) (idle refl)
            | inr rich ↦
                let t = new_withdrawal n db id u amount address in
                let less = balances-add_to_balance n db laws u (neg amount) w h.user_ids found in
                let more =
                  sum_by-create db.transactions laws.transactions reserved t w.transactions in
                let spent =
                  sum_by-create db.transactions laws.transactions disbursed t w.transactions in
                rw (first, found, rich, create_withdrawal)
                  (reserve amount positive (omega (int_laws, ap pos_part less, ap neg_part less))
                    more (omega (int_laws, ap pos_part spent, ap neg_part spent)))
          ]
        ]
      ]

  reserved-bound : (t : Transaction) → pos 0 ≤ℤ t.amount → pos 0 ≤ℤ reserved t
  reserved-bound t h = ground arith

  -- What the end of an open withdrawal adds to what is paid: all that was reserved where it is completed,
  -- nothing where it is failed.
  disbursed-completed :
      (status : Status) (tx_hash : Option String) (now : ℕ) (t : Transaction)
      → is_open t.status ≡ true
      → is_completed status ≡ true
      → disbursed (with_status n db status tx_hash now t) ≡ disbursed t +ℤ reserved t
  disbursed-completed status tx_hash now t open_row done =
      elim (Bool-cases (is_withdrawal t.type && t.funds_reserved)) [
        | inl counted ↦
            let a : disbursed (with_status n db status tx_hash now t) ≡ t.amount = ground arith in
            let b : disbursed t ≡ pos 0 = ground arith in
            let c : reserved t ≡ t.amount = ground arith in
            omega (
              int_laws,
              ap pos_part a,
              ap neg_part a,
              ap pos_part b,
              ap neg_part b,
              ap pos_part c,
              ap neg_part c,
            )
        | inr not_counted ↦
            let a : disbursed (with_status n db status tx_hash now t) ≡ pos 0 = ground arith in
            let b : disbursed t ≡ pos 0 = ground arith in
            let c : reserved t ≡ pos 0 = ground arith in
            omega (
              int_laws,
              ap pos_part a,
              ap neg_part a,
              ap pos_part b,
              ap neg_part b,
              ap pos_part c,
              ap neg_part c,
            )
      ]

  disbursed-failed :
      (status : Status) (tx_hash : Option String) (now : ℕ) (t : Transaction)
      → is_open t.status ≡ true
      → is_completed status ≡ false
      → disbursed (with_status n db status tx_hash now t) ≡ disbursed t
  disbursed-failed status tx_hash now t open_row lost = ground arith

  reserved-failed :
      (status : Status) (t : Transaction)
      → is_open t.status ≡ true
      → is_failed status ≡ true
      → is_refund n db status t ≡ false
      → reserved t ≡ pos 0
  reserved-failed status t open_row lost plain = ground arith

  module _ (id : ℕ) (status : Status) (tx_hash : Option String) (now : ℕ) (w : Wallet)
      (h : IsSound w) (final : (is_completed status || is_failed status) ≡ true) {t : Transaction}
      (there : db.transactions.find (λ s. s.id == id) w.transactions ≡ some t)
      (open_row : is_open t.status ≡ true) where
    due : pos 0 ≤ℤ t.amount
    due =
        find-All db.transactions laws.transactions (λ r. pos 0 ≤ℤ r.amount) (λ r. r.id == id)
          w.transactions h.amounts there

    disbursed-relabelled :
        sum_by disbursed (relabelled n db laws id status tx_hash now w h final there).transactions
          +ℤ disbursed t
        ≡ sum_by disbursed w.transactions +ℤ disbursed (with_status n db status tx_hash now t)
    disbursed-relabelled =
        let change =
          sum_by-update_found db.transactions laws.transactions (λ r. r.id) id
            (with_status n db status tx_hash now) w.transactions disbursed h.transaction_ids
            there in
        omega (int_laws, ap pos_part change, ap neg_part change)

    plain-VaultStep :
        is_refund n db status t ≡ false
        → VaultStep (vault w) (vault (relabelled n db laws id status tx_hash now w h final there))
    plain-VaultStep plain =
        let released = reserved-relabelled n db laws id status tx_hash now w h final there in
        let spent = disbursed-relabelled in
        elim (Bool-cases (is_completed status)) [
          | inl done ↦
              let more = disbursed-completed status tx_hash now t open_row done in
              pay (reserved t) (reserved-bound t due) refl released (
                omega (
                  int_laws,
                  ap pos_part spent,
                  ap neg_part spent,
                  ap pos_part more,
                  ap neg_part more,
                ))
          | inr lost ↦
              let same = disbursed-failed status tx_hash now t open_row lost in
              let none_left =
                reserved-failed status t open_row (ground (arith, final, lost)) plain in
              give_back (pos 0) (omega int_laws) (omega int_laws)
                (omega (
                  int_laws,
                  ap pos_part released,
                  ap neg_part released,
                  ap pos_part none_left,
                  ap neg_part none_left,
                ))
                (omega (
                  int_laws,
                  ap pos_part spent,
                  ap neg_part spent,
                  ap pos_part same,
                  ap neg_part same,
                ))
        ]

    refund-VaultStep :
        {user : User}
        → is_refund n db status t ≡ true
        → db.users.find (λ r. r.id == t.user_id) w.users ≡ some user
        → VaultStep (vault w) (
            vault (
              add_to_balance n db t.user_id t.amount
                (relabelled n db laws id status tx_hash now w h final there)))
    refund-VaultStep refund found =
        let released = reserved-relabelled n db laws id status tx_hash now w h final there in
        let spent = disbursed-relabelled in
        let (all, _) = reserved-refund n db laws status t refund in
        let lost : is_completed status ≡ false = ground arith in
        let same = disbursed-failed status tx_hash now t open_row lost in
        let back = balances-add_to_balance n db laws t.user_id t.amount w h.user_ids found in
        give_back t.amount due back
          (omega (
            int_laws,
            ap pos_part released,
            ap neg_part released,
            ap pos_part all,
            ap neg_part all,
          ))
          (omega
            (int_laws, ap pos_part spent, ap neg_part spent, ap pos_part same, ap neg_part same))

  update_transaction_status-VaultStep :
      (id : ℕ) (status : Status) (tx_hash : Option String) (now : ℕ) (w : Wallet)
      → IsSound w
      → (is_completed status || is_failed status) ≡ true
      → IsUnsettled id w.transactions
      → VaultStep (vault w) (vault (update_transaction_status n db id status tx_hash now w).1)
  unfolding update_transaction_status
  update_transaction_status-VaultStep id status tx_hash now w h final still =
      elim (Option-cases (db.transactions.find (λ t. t.id == id) w.transactions)) [
        | inl gone ↦ rw (gone, update_transaction_status) (idle refl)
        | inr (t, there) ↦
            let key : t.id ≡ id =
              (let hit = (laws.transactions.find_some _ _ _ there).0 in ground arith) in
            let open_row : is_open t.status ≡ true =
              find-All db.transactions laws.transactions (λ r. r.id ≡ id → is_open r.status ≡ true)
                (λ r. r.id == id) w.transactions still there key in
            elim (Bool-cases (is_refund n db status t)) [
              | inr plain ↦
                  rw (there, plain, update_transaction_status)
                    (plain-VaultStep id status tx_hash now w h final there open_row plain)
              | inl refund ↦ elim (Option-cases (db.users.find (λ r. r.id == t.user_id) w.users)) [
                | inl nobody ↦ rw (there, refund, nobody, update_transaction_status) (idle refl)
                | inr (user, found) ↦
                    rw (there, refund, found, update_transaction_status)
                      (refund-VaultStep id status tx_hash now w h final there open_row refund found)
              ]
            ]
      ]

  -- A refinement of a change: the wallet stays sound, and the vault runs.
  abbrev pub Refines : Wallet → Wallet → Type 0
  Refines w w' = IsSound w' × VaultRun (vault w) (vault w')

  pub Refines-append : (w w' w'' : Wallet) → Refines w w' → Refines w' w'' → Refines w w''
  Refines-append w w' w'' p q = (q.0, VaultRun-append (vault w) (vault w') (vault w'') p.1 q.1)

  pub one-Refines : (w w' : Wallet) → IsSound w' → VaultStep (vault w) (vault w') → Refines w w'
  one-Refines w w' sound step =
      (sound, and_then (vault w) (vault w) (vault w') (at_rest (vault w)) step)

  pub update_transaction_status-Refines :
      (id : ℕ) (status : Status) (tx_hash : Option String) (now : ℕ) (w : Wallet)
      → (is_completed status || is_failed status) ≡ true
      → IsUnsettled id w.transactions
      → IsSound w
      → Refines w (update_transaction_status n db id status tx_hash now w).1
  update_transaction_status-Refines id status tx_hash now w final still h =
      one-Refines w _
        (update_transaction_status-conserves n db laws id status tx_hash now w h final).0
        (update_transaction_status-VaultStep id status tx_hash now w h final still)
