-- ===== src/Amounts.antt =====
-- src/utils/amounts.ts: arithmetic on token amounts. `Number(...)` of a BigInt is taken as exact.
pub mod Ranges
pub mod Decimal
pub mod RoundTrip
pub mod Truncates
mod Tests
mod DecimalTests
use coralswap_sdk.Common.{
  ℕ, ◌-◌, ◌^◌, if◌then◌else◌, Bool, true, false, ◌||◌, Result, ◌>>◌, throw_if, ok, err, validation,
  plain, ℤ, pos, neg, ◌+ℤ◌, ◌-ℤ◌, ◌*ℤ◌, quot, is_zero, ltb_ℤ,
}
use coralswap_sdk.PairMath.{bps_denominator}

unfoldable pub to_bps : ℤ → ℤ → ℤ
to_bps numerator denominator =
    if is_zero denominator then pos 0 else quot (numerator *ℤ bps_denominator) denominator

unfoldable pub apply_bps : ℤ → ℤ → ℤ
apply_bps amount bps = quot (amount *ℤ bps) bps_denominator

unfoldable pub get_slippage_tolerance : (amount slippage_bips : ℤ) → (is_input : Bool) → Result ℤ
get_slippage_tolerance amount slippage_bips is_input =
    throw_if (ltb_ℤ slippage_bips (pos 0) || ltb_ℤ bps_denominator slippage_bips) plain
    >> (let multiplier =
          if is_input then bps_denominator +ℤ slippage_bips else bps_denominator -ℤ slippage_bips in
        ok (quot (amount *ℤ multiplier) bps_denominator))

abbrev pub i128_max : ℤ
i128_max = pos (2 ^ 127 - 1)

-- `-i128Max`
abbrev pub i128_min : ℤ
i128_min = neg i128_max

unfoldable pub safe_mul : ℤ → ℤ → Result ℤ
safe_mul a b =
    if is_zero a || is_zero b
    then ok (pos 0)
    else (let result = a *ℤ b in
        if ltb_ℤ i128_max result || ltb_ℤ result i128_min then err validation else ok result)

unfoldable pub safe_div : ℤ → ℤ → Result ℤ
safe_div a b = throw_if (is_zero b) plain >> ok (quot a b)

unfoldable pub min_big_int : ℤ → ℤ → ℤ
min_big_int a b = if ltb_ℤ a b then a else b

unfoldable pub max_big_int : ℤ → ℤ → ℤ
max_big_int a b = if ltb_ℤ b a then a else b
