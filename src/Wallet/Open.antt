-- ===== src/Wallet/Open.antt =====
-- That the jobs settle each withdrawal that they have read once (server/models/walletModel.js,
-- server/cron/withdrawalsCron.js).
use support_block_miner.Wallet.State.{Wallet, WalletDb, IsWalletDb}
use support_block_miner.Wallet.Withdrawals.{update_transaction_status, with_status, is_refund}
use support_block_miner.Engine.Numbers.{Numbers}
use support_block_miner.Base.{
  true, [], ◌∷◌, inl, inr, ◌==◌, ◌≡◌, ◌≢◌, ◌&&◌, if◌then◌else◌, arith, ℕ, not, List, Bool, All,
  Option, keep, String, Option-cases, All-imp, Bool-cases, sym, ap, ◌∙◌,
}
use support_block_miner.Base.Int.{ℤ}
use support_block_miner.Database.{Status, Transaction, is_completed, is_failed}
use support_block_miner.Base.Table.{HasUnique, HasUnique-keep, All-map-imp, same-by-key, keep-Memᴰ}
use mathlib.Core.List.{Memᴰ}

abbrev pub is_open : Status → Bool
is_open status = not (is_completed status) && not (is_failed status)

-- The row of a key, where there is one, is neither completed nor failed.
abbrev pub IsUnsettled : ℕ → List Transaction → Type 0
IsUnsettled id rows = All (λ r. r.id ≡ id → is_open r.status ≡ true) rows

-- The rows that a job has read: no two share a key, and each is open.
abbrev pub AreUnsettled : List Transaction → List Transaction → Type 0
AreUnsettled ts rows =
    HasUnique (λ (t : Transaction). t.id) ts × All (λ t. IsUnsettled t.id rows) ts

All-map2 :
    {A : Type 0} (P Q R : A → Type 0) (xs : List A)
    → ((x : A) → P x → Q x → R x)
    → All P xs
    → All Q xs
    → All R xs
All-map2 P Q R [] f p q = tt
All-map2 P Q R (x ∷ xs) f p q = (f x p.0 q.0, All-map2 P Q R xs f p.1 q.1)

keep-IsUnsettled :
    (p : Transaction → Bool) (rows : List Transaction)
    → ((t : Transaction) → p t ≡ true → is_open t.status ≡ true)
    → HasUnique (λ (t : Transaction). t.id) rows
    → AreUnsettled (keep p rows) rows
keep-IsUnsettled p rows open_status ids = (
  HasUnique-keep (λ t. t.id) p rows ids,
  All-imp (λ t. (p t ≡ true) × Memᴰ t rows) (λ t. IsUnsettled t.id rows) (keep p rows)
      (λ t found.
        All-imp (λ r. r.id ≡ t.id → r ≡ t) (λ r. r.id ≡ t.id → is_open r.status ≡ true) rows
          (λ r same key. ap (λ x. is_open x.status) (same key) ∙ open_status t found.0)
          (same-by-key (λ r. r.id) t rows ids found.1))
      (keep-Memᴰ p rows),
)

module _ (n : Numbers ℤ) (db : WalletDb) (laws : IsWalletDb db) where
  pub find_many-AreUnsettled :
      (p : Transaction → Bool) (rows : List Transaction)
      → ((t : Transaction) → p t ≡ true → is_open t.status ≡ true)
      → HasUnique (λ (t : Transaction). t.id) rows
      → AreUnsettled (db.transactions.find_many p rows) rows
  find_many-AreUnsettled p rows open_status ids =
      rw (laws.transactions.find_many_rows p rows) (keep-IsUnsettled p rows open_status ids)

  -- The change of another row leaves a row open.
  update-IsUnsettled :
      (k id : ℕ) (status : Status) (tx_hash : Option String) (now : ℕ) (rows : List Transaction)
      → k ≢ id
      → IsUnsettled k rows
      → IsUnsettled k
          (db.transactions.update (λ r. r.id == id) (with_status n db status tx_hash now) rows)
  update-IsUnsettled k id status tx_hash now rows apart h =
      rw
        (laws.transactions.update_rows (λ r. r.id == id) (with_status n db status tx_hash now) rows)
        (All-map-imp (λ r. r.id ≡ k → is_open r.status ≡ true)
          (λ r. r.id ≡ k → is_open r.status ≡ true)
          (λ r. if r.id == id then with_status n db status tx_hash now r else r) rows
          (λ r still. elim (Bool-cases (r.id == id)) [
            | inl hit ↦ rw hit (λ e. absurd (apart (sym e ∙ (ground arith))))
            | inr miss ↦ rw miss still
          ])
          h)

  settled-IsUnsettled :
      (k id : ℕ) (status : Status) (tx_hash : Option String) (now : ℕ) (w : Wallet)
      → k ≢ id
      → IsUnsettled k w.transactions
      → IsUnsettled k (update_transaction_status n db id status tx_hash now w).1.transactions
  unfolding update_transaction_status
  settled-IsUnsettled k id status tx_hash now w apart h =
      let changed = update-IsUnsettled k id status tx_hash now w.transactions apart h in
      elim (Option-cases (db.transactions.find (λ t. t.id == id) w.transactions)) [
        | inl gone ↦ rw (gone, update_transaction_status) h
        | inr (t, there) ↦ elim (Bool-cases (is_refund n db status t)) [
          | inr plain ↦ rw (there, plain, update_transaction_status) changed
          | inl refund ↦ elim (Option-cases (db.users.find (λ r. r.id == t.user_id) w.users)) [
            | inl nobody ↦ rw (there, refund, nobody, update_transaction_status) h
            | inr (user, found) ↦ rw (there, refund, found, update_transaction_status) changed
          ]
        ]
      ]

  -- The rows that are left to a job stay open.
  pub rest-AreUnsettled :
      (t : Transaction) (ts : List Transaction) (status : Status) (tx_hash : Option String)
      (now : ℕ) (w : Wallet)
      → AreUnsettled (t ∷ ts) w.transactions
      → AreUnsettled ts (update_transaction_status n db t.id status tx_hash now w).1.transactions
  rest-AreUnsettled t ts status tx_hash now w ((apart, ids), (_, still)) = (
    ids,
    All-map2 (λ x. x.id ≢ t.id) (λ x. IsUnsettled x.id w.transactions)
        (λ x.
          IsUnsettled x.id
            (update_transaction_status n db t.id status tx_hash now w).1.transactions)
        ts (λ x ne is_on. settled-IsUnsettled x.id t.id status tx_hash now w ne is_on) apart still,
  )
