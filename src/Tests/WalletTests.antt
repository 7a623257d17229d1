-- ===== src/Tests/WalletTests.antt =====
-- Runs of the wallet, and its theorems at those inputs.
use support_block_miner.Wallet.Deposits.{found, Chain, ChainTx, verify_one_pending_deposit}
use support_block_miner.Base.{none, some, true, false, [], ◌∷◌, refl, ◌≡◌, arith, String, map}
use support_block_miner.Base.Int.{pos, ◌+ℤ◌, ◌≤ℤ◌}
use support_block_miner.Base.Http.{accepted, rejected}
use support_block_miner.Database.{
  User, Transaction, deposit, withdrawal, pending_verification, pending, failed,
}
use support_block_miner.Wallet.State.{Wallet, pol}
use support_block_miner.Wallet.Withdrawals.{
  create_withdrawal, update_transaction_status, WithdrawalBody, request_withdrawal, new_withdrawal,
  has_pending_withdrawal,
}
use support_block_miner.Wallet.Credits.{Outcome, credits, verify_one_pending_deposit-balances}
use support_block_miner.Tests.Stores.{counts, wallet_db, wallet_db-IsWalletDb}
use support_block_miner.Wallet.Requests.{
  IsAddress, request_withdrawal-rejected, IsCovered, request_withdrawal-accepted,
}
use support_block_miner.Wallet.Once.{verify_one_pending_deposit-once}
use support_block_miner.Base.Text.{are_hex_digits}
use support_block_miner.Wallet.Runs.{withdrawals-Refines, no_call, then_call, asks, processes}
use support_block_miner.Wallet.Refinement.{Refines}
use support_block_miner.Wallet.Vault.{vault, in_all}
use support_block_miner.Wallet.Withdrawals.{process_pending_withdrawals}
use support_block_miner.Wallet.Funds.{IsSound, held, create_withdrawal-conserves}
use support_block_miner.Wallet.Endings.{update_transaction_status-conserves, Ended}
use support_block_miner.Wallet.Submit.{DepositBody, submit_deposit, submit_claim, claim_hash}
use support_block_miner.Wallet.Claims.{IsSubmission, submit_deposit-submits}

abbrev alice : User
alice = record { id = 7; pol_balance = pol 50; usdc_balance = pos 0; wallet_address = none }

abbrev hash : String
hash = "0xabc"

-- A deposit that waits for its verification, of which the user claims 30 POL.
abbrev waiting : Transaction
waiting = record {
  id = 1;
  user_id = 7;
  type = deposit;
  amount = pol 30;
  address = none;
  tx_hash = some hash;
  from_address = none;
  status = pending_verification;
  funds_reserved = false;
  verify_attempts = 0;
  completed_at = none;
  fail_reason = none;
}

-- A withdrawal of 10 POL that is pending.
abbrev open_withdrawal : Transaction
open_withdrawal = record {
  id = 2;
  user_id = 7;
  type = withdrawal;
  amount = pol 10;
  address = some "0x0000000000000000000000000000000000000001";
  tx_hash = none;
  from_address = none;
  status = pending;
  funds_reserved = true;
  verify_attempts = 0;
  completed_at = none;
  fail_reason = none;
}

abbrev quiet : Wallet
quiet = record { users = alice ∷ []; transactions = waiting ∷ []; engine = none }

abbrev in_flight : Wallet
in_flight = record {
  users = alice ∷ [];
  transactions = waiting ∷ open_withdrawal ∷ [];
  engine = none;
}

quiet-IsSound : IsSound quiet
quiet-IsSound = record {
  user_ids = (tt, tt);
  transaction_ids = (tt, tt);
  solvent = (omega arith, tt);
  amounts = (omega arith, tt);
}

in_flight-IsSound : IsSound in_flight
in_flight-IsSound = record {
  user_ids = (tt, tt);
  transaction_ids = ((omega arith, tt), (tt, tt));
  solvent = (omega arith, tt);
  amounts = (omega arith, (omega arith, tt));
}

create_withdrawal-conserves_example :
    let w' = (create_withdrawal counts wallet_db 2 7 (pol 20) "0x01" quiet).1 in
    IsSound w' × (held w' ≡ held quiet)
create_withdrawal-conserves_example =
    create_withdrawal-conserves counts wallet_db wallet_db-IsWalletDb 2 7 (pol 20) "0x01" quiet
      quiet-IsSound (omega arith) (omega arith, tt)

update_transaction_status-conserves_example :
    let (r, w') = update_transaction_status counts wallet_db 2 failed none 900 in_flight in
    IsSound w' × Ended counts wallet_db wallet_db-IsWalletDb 2 failed in_flight r w'
update_transaction_status-conserves_example =
    update_transaction_status-conserves counts wallet_db wallet_db-IsWalletDb 2 failed none 900
      in_flight in_flight-IsSound refl

-- A transfer of 25 POL to the deposit address.
abbrev transfer : ChainTx
transfer = record {
  to = some "0xd0";
  sender = some "0xa1";
  chain_id = 137;
  value = 25_000_000_000_000_000_000;
}

abbrev chain : Chain
chain = record { get_transaction_receipt = λ h. found true; get_transaction = λ h. found transfer }

verify_one_pending_deposit-balances_example :
    Outcome counts wallet_db wallet_db-IsWalletDb chain
      (some "0xd0")
      waiting
      quiet
      (verify_one_pending_deposit counts wallet_db chain (some "0xd0") 900 waiting quiet)
verify_one_pending_deposit-balances_example =
    verify_one_pending_deposit-balances counts wallet_db wallet_db-IsWalletDb chain (some "0xd0")
      900 waiting quiet (tt, tt)

verify_one_pending_deposit-once_example :
    credits
      (some hash)
      (verify_one_pending_deposit counts wallet_db chain (some "0xd0") 900 waiting quiet)
    ≤ℤ pos 1
unfolding ◌+ℤ◌
verify_one_pending_deposit-once_example =
    verify_one_pending_deposit-once counts wallet_db wallet_db-IsWalletDb (some hash) chain
      (some "0xd0") 900 waiting quiet (tt, tt) refl (omega arith)

-- The requests of a user with 50 POL.
abbrev body : WithdrawalBody
body = record {
  amount = some (some (pol 20));
  address = some "0x00000000000000000000000000000000000000aF";
}

abbrev low : WithdrawalBody
low = record body { amount = some (some (pol 9)) }

accepts :
    (request_withdrawal counts wallet_db 2 7 body quiet).0
    ≡ accepted
        (new_withdrawal counts wallet_db 2 7 (pol 20) "0x00000000000000000000000000000000000000aF")
unfolding request_withdrawal create_withdrawal are_hex_digits ◌+ℤ◌
accepts = refl

rejects :
    (request_withdrawal counts wallet_db 2 7 low quiet).0
    ≡ rejected 400 "Minimum withdrawal is 10 POL."
unfolding request_withdrawal are_hex_digits
rejects = refl

request_withdrawal-rejected_example : (request_withdrawal counts wallet_db 2 7 low quiet).1 ≡ quiet
request_withdrawal-rejected_example =
    request_withdrawal-rejected counts wallet_db 2 7 low quiet rejects

abbrev made : Transaction
made = new_withdrawal counts wallet_db 2 7 (pol 20) "0x00000000000000000000000000000000000000aF"

request_withdrawal-accepted_example :
    (pol 10 ≤ℤ made.amount)
    × (body.amount ≡ some (some made.amount))
    × (made.address ≡ body.address)
    × IsAddress counts wallet_db body.address
    × (made.status ≡ pending)
    × (made.funds_reserved ≡ true)
    × (has_pending_withdrawal counts wallet_db 7 quiet ≡ false)
    × IsCovered counts wallet_db 7 made.amount quiet
request_withdrawal-accepted_example =
    request_withdrawal-accepted counts wallet_db 2 7 body quiet accepts

abbrev submission : DepositBody
submission = record {
  tx_hash = some "0x00000000000000000000000000000000000000000000000000000000000000ab";
  claimed_amount = some (some (pol 5));
}

submits :
    map (λ t. t.amount) (submit_deposit counts wallet_db 2 7 submission quiet).1.transactions
    ≡ pol 30 ∷ pol 5 ∷ []
unfolding submit_deposit submit_claim claim_hash are_hex_digits
submits = refl

submit_deposit-submits_example :
    IsSubmission counts wallet_db wallet_db-IsWalletDb 7 submission.tx_hash quiet
      (submit_deposit counts wallet_db 2 7 submission quiet)
    × ((submit_deposit counts wallet_db 2 7 submission quiet).1.users ≡ quiet.users)
    × ((submit_deposit counts wallet_db 2 7 submission quiet).1.engine ≡ quiet.engine)
submit_deposit-submits_example =
    submit_deposit-submits counts wallet_db wallet_db-IsWalletDb 2 7 submission quiet

-- A request for a withdrawal, and the job that pays it.
abbrev asked : Wallet
asked = (request_withdrawal counts wallet_db 9 7 body quiet).1

abbrev sent_out : Wallet
sent_out = process_pending_withdrawals counts wallet_db true (λ t. some hash) 5000 asked

withdrawals-Refines_example :
    Refines counts wallet_db wallet_db-IsWalletDb quiet sent_out
    × (in_all (vault sent_out) ≡ in_all (vault quiet))
withdrawals-Refines_example =
    withdrawals-Refines counts wallet_db wallet_db-IsWalletDb quiet sent_out
      (then_call quiet asked sent_out
        (then_call quiet quiet asked (no_call quiet) (asks 9 7 body quiet (omega arith, tt)))
        (processes true (λ t. some hash) 5000 asked))
      quiet-IsSound
