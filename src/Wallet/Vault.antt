-- ===== src/Wallet/Vault.antt =====
-- What the wallet promises of withdrawals: money that is available, money that is reserved, and three
-- ways to move it (server/models/walletModel.js).
use support_block_miner.Wallet.Funds.{reserved, balances}
use support_block_miner.Wallet.State.{Wallet}
use support_block_miner.Base.Int.{pos, ◌+ℤ◌, ◌≤ℤ◌, ℤ, int_laws, pos_part, neg_part}
use support_block_miner.Base.{◌≡◌, ap, refl, ◌&&◌, if◌then◌else◌, ◌∙◌}
use support_block_miner.Base.Table.{sum_by}
use support_block_miner.Database.{Transaction, is_withdrawal, is_completed}

-- The balances of the users, what open withdrawals have taken from them, and what completed ones have.
pub record Vault : Type 0 where
  pub available : ℤ
  pub on_hold : ℤ
  pub paid : ℤ

-- One move: nothing, a withdrawal that is asked for, one that is given back, or one that is paid.
pub data VaultStep (v v' : Vault) : Type 0 where
  idle : v' ≡ v → VaultStep v v'
  reserve :
      (a : ℤ)
      → pos 0 ≤ℤ a
      → v'.available +ℤ a ≡ v.available
      → v'.on_hold ≡ v.on_hold +ℤ a
      → v'.paid ≡ v.paid
      → VaultStep v v'
  give_back :
      (a : ℤ)
      → pos 0 ≤ℤ a
      → v'.available ≡ v.available +ℤ a
      → v'.on_hold +ℤ a ≡ v.on_hold
      → v'.paid ≡ v.paid
      → VaultStep v v'
  pay :
      (a : ℤ)
      → pos 0 ≤ℤ a
      → v'.available ≡ v.available
      → v'.on_hold +ℤ a ≡ v.on_hold
      → v'.paid ≡ v.paid +ℤ a
      → VaultStep v v'

pub data VaultRun : Vault → Vault → Type 0 where
  at_rest : (v : Vault) → VaultRun v v
  and_then : (v v' v'' : Vault) → VaultRun v v' → VaultStep v' v'' → VaultRun v v''

pub VaultRun-append : (v v' v'' : Vault) → VaultRun v v' → VaultRun v' v'' → VaultRun v v''
VaultRun-append v _ _ first (at_rest v') = first
VaultRun-append v _ _ first (and_then v' w w' run step) =
    and_then v w w' (VaultRun-append v v' w first run) step

-- What a completed withdrawal has taken from the wallet for good.
abbrev pub disbursed : Transaction → ℤ
disbursed t =
    if is_withdrawal t.type && t.funds_reserved && is_completed t.status then t.amount else pos 0

-- The abstract view of a wallet.
abbrev pub vault : Wallet → Vault
vault w = record {
  available = balances w;
  on_hold = sum_by reserved w.transactions;
  paid = sum_by disbursed w.transactions;
}

abbrev pub in_all : Vault → ℤ
in_all v = v.available +ℤ v.on_hold +ℤ v.paid

-- The vault makes no money and loses none.
pub VaultRun-in_all : (v v' : Vault) → VaultRun v v' → in_all v' ≡ in_all v
VaultRun-in_all _ _ (at_rest v) = refl
VaultRun-in_all _ _ (and_then v v' v'' run step) =
    let before = VaultRun-in_all v v' run in
    let moved : in_all v'' ≡ in_all v' = elim step [
      | idle e ↦ ap in_all e
      | reserve a h e f g ↦ omega (
        int_laws,
        ap pos_part e,
        ap neg_part e,
        ap pos_part f,
        ap neg_part f,
        ap pos_part g,
        ap neg_part g,
      )
      | give_back a h e f g ↦ omega (
        int_laws,
        ap pos_part e,
        ap neg_part e,
        ap pos_part f,
        ap neg_part f,
        ap pos_part g,
        ap neg_part g,
      )
      | pay a h e f g ↦ omega (
        int_laws,
        ap pos_part e,
        ap neg_part e,
        ap pos_part f,
        ap neg_part f,
        ap pos_part g,
        ap neg_part g,
      )
    ] in
    moved ∙ before
