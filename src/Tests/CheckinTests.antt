-- ===== src/Tests/CheckinTests.antt =====
-- Runs of the check-in, and its theorems at those inputs.
use support_block_miner.Checkin.State.{DailyCheckin, checkin_confirmed, checkin_failed}
use support_block_miner.Checkin.Streak.{compute_streak, streak_at, count_days}
use support_block_miner.Checkin.Days.{compute_streak-IsStreak, IsStreak, dates_of}
use support_block_miner.Checkin.Growth.{claim_checkin-streak}
use support_block_miner.Checkin.Claims.{
  CheckinSettings, claim_checkin, confirm_checkin, confirm_payment, checked_in,
}
use support_block_miner.Checkin.Chain.{PaymentChain}
use support_block_miner.Checkin.Paid.{confirm_checkin-paid, IsPaidCheckin, Settled}
use support_block_miner.Wallet.Deposits.{found}
use support_block_miner.Base.Text.{are_hex_digits}
use support_block_miner.Base.Table.{memory, memory-IsTable}
use support_block_miner.Base.{none, some, true, [], ◌∷◌, refl, ◌+◌, ◌≡◌, arith, ℕ, List, String}
use support_block_miner.Base.Http.{accepted}

abbrev day_row : ℕ → String → ℕ → DailyCheckin
day_row id hash day = record {
  id = id;
  user_id = 7;
  checkin_date = day;
  created_at = 0;
  confirmed_at = none;
  tx_hash = hash;
  status = checkin_confirmed;
  amount = 0;
  chain_id = 137;
}

-- The days 5, 7 and 8, and a failed payment on day 9.
abbrev days : List DailyCheckin
days =
    day_row 1 "a" 5
    ∷ day_row 2 "b" 7
    ∷ day_row 3 "c" 8
    ∷ record (day_row 4 "d" 9) { status = checkin_failed }
    ∷ []

streak_of_two : compute_streak memory 10 7 9 days ≡ some 2
unfolding compute_streak streak_at count_days
streak_of_two = refl

compute_streak-IsStreak_example :
    (n : ℕ) × (compute_streak memory 10 7 9 days ≡ some n) × IsStreak (dates_of 7 days) 9 n
compute_streak-IsStreak_example =
    compute_streak-IsStreak memory memory-IsTable 10 7 9 days (omega arith) refl

abbrev receiver : String
receiver = "0x00000000000000000000000000000000000000aa"

abbrev payer : String
payer = "0x00000000000000000000000000000000000000bb"

abbrev paid_settings : CheckinSettings
paid_settings = record {
  receiver = some receiver;
  min_wei = 1000;
  chain_id = 137;
  free_hash = λ u day. "free";
}

claim_checkin-streak_example :
    (n : ℕ) × (compute_streak memory 10 7 9 days ≡ some n)
    × (compute_streak memory 10 7 9 (claim_checkin paid_settings memory 5 1000 9 7 days).1
        ≡ some (n + 1))
claim_checkin-streak_example =
    claim_checkin-streak paid_settings memory memory-IsTable 10 5 1000 7 8 days (omega arith) refl
      refl refl

abbrev paid_chain : PaymentChain
paid_chain = record {
  get_tx = λ h. found (record { sender = payer; to = receiver; value = some 2000 });
  get_receipt = λ h. found true;
}

abbrev payment_hash : String
payment_hash = "0x00000000000000000000000000000000000000000000000000000000000000cc"

confirmed :
    (confirm_checkin paid_settings memory paid_chain 5 1000 9 7
      (some payment_hash)
      (some payer)
      days).0
    ≡ accepted checked_in
unfolding confirm_checkin confirm_payment are_hex_digits
confirmed = refl

confirm_checkin-paid_example :
    Settled paid_settings memory memory-IsTable 9 7
      (IsPaidCheckin paid_settings memory memory-IsTable paid_chain 9 7
        (some payment_hash)
        (some payer)
        days)
      days
      (confirm_checkin paid_settings memory paid_chain 5 1000 9 7
        (some payment_hash)
        (some payer)
        days)
confirm_checkin-paid_example =
    confirm_checkin-paid paid_settings memory memory-IsTable paid_chain 5 1000 9 7
      (some payment_hash) (some payer) days
