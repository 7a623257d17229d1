-- ===== src/Tests/LimiterTests.antt =====
-- A run of the rate limiter, and its theorem at that input.
use support_block_miner.RateLimit.Hits.{
  LimiterOptions, Limiter, passed, Request, limit, clean, cleanup,
}
use support_block_miner.Base.{[], ◌∷◌, inr, refl, ◌≤◌, ◌≡◌, arith, List, All}
use support_block_miner.RateLimit.Windows.{IsWithin, passed-bound}

-- Two requests a minute.
abbrev options : LimiterOptions
options = record {
  window_ms = 60_000;
  max = 2;
  cleanup_interval_ms = 300_000;
  stale_after_ms = 120_000;
  max_keys = 10_000;
}

abbrev unused : Limiter
unused = record { hits = []; last_cleanup_at = 0 }

abbrev requests : List Request
requests =
    record { now = 400_000; key = 1 }
    ∷ record { now = 400_010; key = 2 }
    ∷ record { now = 410_000; key = 1 }
    ∷ record { now = 420_000; key = 1 }
    ∷ []

two_pass : passed options 1 requests unused ≡ 2
unfolding passed limit clean cleanup
two_pass = refl

requests-IsWithin : All (IsWithin options 400_000 1) requests
requests-IsWithin = ground arith

passed-bound_example : passed options 1 requests unused ≤ 2
passed-bound_example =
    passed-bound options 400_000 1 requests unused (omega arith) tt requests-IsWithin
      (inr (omega arith))
