-- ===== src/Checkin/Chain.antt =====
-- The judgement of a payment for a check-in (`evaluateCheckinTx`, server/services/checkinChain.js). The
-- chain, which the providers answer for, is an argument.
use text.Mathlib.Text.{◌==◌ as str_eq}
use support_block_miner.Wallet.Deposits.{Answer, rpc_error, missing, found}
use support_block_miner.Base.{
  none, some, true, false, ◌||◌, if◌then◌else◌, ℕ, not, String, Option, Bool, ltb,
}

-- A transaction on the chain, with its addresses as `normalizeAddr` leaves them, and the value where
-- `BigInt` reads it.
pub record Payment : Type 0 where
  pub sender : String
  pub to : String
  pub value : Option ℕ

pub data Evaluation : Type 0 where
  tx_confirmed tx_pending : Evaluation
  tx_failed : String → Evaluation

-- `getTxWithFallback` and `getReceiptWithFallback`; a receipt is the result of `receiptSucceeded`.
pub record PaymentChain : Type 0 where
  pub get_tx : String → Answer Payment
  pub get_receipt : String → Answer Bool

abbrev pub zero_addr : String
zero_addr = "0x0000000000000000000000000000000000000000"

abbrev pub is_no_recipient : String → Bool
is_no_recipient to = str_eq to "" || str_eq to zero_addr

-- From the receipt on; none where the provider throws.
abbrev pub judge_receipt : Answer Bool → Option Evaluation
judge_receipt rpc_error = none
judge_receipt missing = some tx_pending
judge_receipt (found false) =
    some (tx_failed "Transaction failed on-chain (reverted or out of gas).")
judge_receipt (found true) = some tx_confirmed

abbrev pub judge_value : Option ℕ → ℕ → Answer Bool → Option Evaluation
judge_value none min receipt = some (tx_failed "Invalid transaction value.")
judge_value (some value) min receipt =
    if ltb value min
    then some (tx_failed "Amount sent is below the required check-in payment.")
    else judge_receipt receipt

-- The checks of the transaction, in order.
abbrev pub judge_tx : String → String → ℕ → Answer Bool → Answer Payment → Option Evaluation
judge_tx wallet receiver min receipt rpc_error = none
judge_tx wallet receiver min receipt missing = some tx_pending
judge_tx wallet receiver min receipt (found p) =
    if not (str_eq p.sender wallet)
    then some (tx_failed "Transaction sender does not match your linked wallet.")
    else if is_no_recipient p.to
    then some (tx_failed "Invalid transaction (no recipient).")
    else if not (str_eq p.to receiver)
    then some (tx_failed "Payment must go to the official check-in address.")
    else judge_value p.value min receipt

-- `evaluateCheckinTx`; none where a provider throws.
abbrev pub evaluate_checkin_tx : PaymentChain → String → String → String → ℕ → Option Evaluation
evaluate_checkin_tx chain hash wallet receiver min =
    judge_tx wallet receiver min (chain.get_receipt hash) (chain.get_tx hash)
