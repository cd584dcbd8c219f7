-- ===== src/PairMath.antt =====
-- src/utils/pair-math.ts: the integer formulas of a constant-product pair, on BigInt. A BigInt is
-- unbounded, so the formulas cannot overflow; fees are whole basis points.
pub mod Root
pub mod Pricing
pub mod Ranges
pub mod Sales
pub mod Shares
mod Tests
use mathlib.Core.Logic.{dite}
use mathlib.Core.WellFounded
use mathlib.Core.WellFounded.{Acc}
use native.Mathlib.Decide.{dec_lt}
use coralswap_sdk.Common.{
  ℕ, ◌+◌, ◌/◌, ◌<◌, ◌||◌, ℤ, pos, negsuc, ◌+ℤ◌, ◌-ℤ◌, ◌*ℤ◌, divide, ltb_ℤ, leb_ℤ, eqb_ℤ, Result, ok,
  err, validation, insufficient_liquidity, throw_if, ◌>>=◌, ◌>>◌, ◌==◌, if◌then◌else◌,
}
use coralswap_sdk.Common.Order.{lt_wf}

-- `PRECISION.MIN_LIQUIDITY` and `PRECISION.BPS_DENOMINATOR` of src/config.ts.
abbrev pub min_liquidity : ℤ
min_liquidity = pos 1000

abbrev pub bps_denominator : ℤ
bps_denominator = pos 10000

-- `while (y < x) { x = y; y = (x + value / x) / 2n; }`. The loop ends because `x` falls.
sqrt_loop : (value x y : ℕ) → Acc ◌<◌ x → ℕ
sqrt_loop value x y (Acc.intro _ smaller) =
    dite (dec_lt y x) (λ h. sqrt_loop value y ((y + value / y) / 2) (smaller y h)) (λ _. x)

-- The loop from `x = value` and `y = (x + 1n) / 2n`.
unfoldable pub sqrt_from : ℕ → ℕ
unfolding sqrt_loop lt_wf dec_lt
sqrt_from value = sqrt_loop value value ((value + 1) / 2) (lt_wf.apply value)

unfoldable pub sqrt : ℤ → Result ℤ
sqrt (negsuc n) = err validation
sqrt (pos n) = if n == 0 then ok (pos 0) else ok (pos (sqrt_from n))

unfoldable pub compute_mint : ℤ → ℤ → ℤ → ℤ → ℤ → Result ℤ
compute_mint amount_a amount_b reserve_a reserve_b total_supply =
    if eqb_ℤ total_supply (pos 0) then initial else proportional
  where
    initial : Result ℤ
    initial = do
      root ← sqrt (amount_a *ℤ amount_b)
      let liquidity = root -ℤ min_liquidity
      throw_if (leb_ℤ liquidity (pos 0)) insufficient_liquidity
      ok liquidity

    proportional : Result ℤ
    proportional = do
      liq_a ← divide (amount_a *ℤ total_supply) reserve_a
      liq_b ← divide (amount_b *ℤ total_supply) reserve_b
      ok (if ltb_ℤ liq_a liq_b then liq_a else liq_b)

unfoldable pub compute_burn : ℤ → ℤ → ℤ → ℤ → Result (ℤ × ℤ)
compute_burn liquidity reserve_a reserve_b total_supply = do
  amount_a ← divide (liquidity *ℤ reserve_a) total_supply
  amount_b ← divide (liquidity *ℤ reserve_b) total_supply
  ok (amount_a, amount_b)

unfoldable pub get_amount_out : ℤ → ℤ → ℤ → ℤ → Result ℤ
get_amount_out amount_in reserve_in reserve_out fee_bps = do
  throw_if (leb_ℤ amount_in (pos 0)) validation
  throw_if (leb_ℤ reserve_in (pos 0) || leb_ℤ reserve_out (pos 0)) insufficient_liquidity
  let amount_in_with_fee = amount_in *ℤ (pos 10000 -ℤ fee_bps)
  divide (amount_in_with_fee *ℤ reserve_out) (reserve_in *ℤ pos 10000 +ℤ amount_in_with_fee)

unfoldable pub get_amount_in : ℤ → ℤ → ℤ → ℤ → Result ℤ
get_amount_in amount_out reserve_in reserve_out fee_bps = do
  throw_if (leb_ℤ amount_out (pos 0)) validation
  throw_if (leb_ℤ reserve_in (pos 0) || leb_ℤ reserve_out (pos 0)) insufficient_liquidity
  throw_if (leb_ℤ reserve_out amount_out) insufficient_liquidity
  let fee_factor = pos 10000 -ℤ fee_bps
  quotient ←
      divide (reserve_in *ℤ amount_out *ℤ pos 10000) ((reserve_out -ℤ amount_out) *ℤ fee_factor)
  ok (quotient +ℤ pos 1)
