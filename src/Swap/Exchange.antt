-- ===== src/Swap/Exchange.antt =====
-- `getPolUsdPrice` and `executeSwap` (server/controllers/swapController.js). Prices, and the products
-- and quotients that the swap computes, are numbers of `Numbers ℤ`, which stand as the
-- columns keep them, in 10⁻⁸: the amount of a request has at most eight decimals, and the output is the product
-- or quotient after rounding, while the response of the source has it before. An amount that `Number` reads
-- as NaN is left out.
use support_block_miner.Base.{none, some, ◌==◌, ◌-◌, if◌then◌else◌, ℕ, Option, ltb, Bool}
use support_block_miner.Base.Http.{accepted, rejected, Response}
use support_block_miner.Base.Int.{◌+ℤ◌, ℤ, ltb_ℤ, neg}
use support_block_miner.Engine.Numbers.{Numbers}
use support_block_miner.Wallet.State.{WalletDb, Wallet}
use support_block_miner.Engine.Miners.{apply_user_balance_delta}

abbrev pub price_ttl_ms : ℕ
price_ttl_ms = 120_000

-- An entry of `priceCache`.
pub record CachedPrice : Type 0 where
  pub price : ℤ
  pub timestamp : ℕ

module _ (n : Numbers ℤ) where
  abbrev pub keep_price : ℕ → Option ℤ → Option CachedPrice → ℤ × Option CachedPrice
  keep_price now none cached = (n.ratio 1 1, cached)
  keep_price now (some price) cached =
      if n.falsy price
      then (n.ratio 1 1, cached)
      else (price, some (record { price = price; timestamp = now }))

  -- `getPolUsdPrice()`: `fetched` is what the price service answers, none where the request fails or
  -- names no price.
  unfoldable pub get_pol_usd_price : ℕ → Option ℤ → Option CachedPrice → ℤ × Option CachedPrice
  get_pol_usd_price now fetched none = keep_price now fetched none
  get_pol_usd_price now fetched (some c) =
      if ltb (now - c.timestamp) price_ttl_ms
      then (c.price, some c)
      else keep_price now fetched (some c)

module _ (n : Numbers ℤ) (db : WalletDb) where
  -- The update of both balances, and the change of POL in memory.
  abbrev pub exchange : ℕ → ℤ → ℤ → Wallet → Wallet
  exchange u pol_change usdc_change w = record w {
    users =
        db.users.update (λ r. r.id == u)
          (λ r. record r {
            pol_balance = r.pol_balance +ℤ pol_change;
            usdc_balance = r.usdc_balance +ℤ usdc_change;
          })
          w.users;
    engine = apply_user_balance_delta n u pol_change w.engine;
  }

  -- `output`
  abbrev pub swap_output : Bool → ℤ → ℤ → ℤ
  swap_output from_pol amount rate = if from_pol then n.mul amount rate else n.div amount rate

  -- The end of the `$transaction`: where `createAuditLog` throws, it is undone, but not the change in
  -- memory.
  abbrev pub log_swap : Bool → ℤ → Wallet → Wallet → Response ℤ × Wallet
  log_swap logged output w w' =
      if logged
      then (accepted output, w')
      else (rejected 400 "Audit log failed", record w { engine = w'.engine })

  -- `executeSwap(req, res)` at the price `rate`; `from_pol` says whether `fromAsset` is "POL", and
  -- `logged` whether the audit log can be written. An accepted request answers the output.
  unfoldable pub execute_swap : Bool → Bool → ℤ → ℤ → ℕ → Wallet → Response ℤ × Wallet
  execute_swap logged from_pol amount rate u w =
      let output = swap_output from_pol amount rate in
      elim (db.users.find (λ r. r.id == u) w.users) [
        | none ↦ (rejected 400 "Cannot read properties of null", w)
        | some user ↦
            if from_pol
            then if ltb_ℤ user.pol_balance amount
              then (rejected 400 "Insufficient POL balance", w)
              else log_swap logged output w (exchange u (neg amount) output w)
            else if ltb_ℤ user.usdc_balance amount
            then (rejected 400 "Insufficient USDC balance", w)
            else log_swap logged output w (exchange u output (neg amount) w)
      ]
