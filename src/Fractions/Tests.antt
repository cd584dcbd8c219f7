-- ===== src/Fractions/Tests.antt =====
-- Some fractions, rounded, printed and inverted.
use coralswap_sdk.Common.{
  ℕ, ◌^◌, ◌≡◌, refl, arith, ok, codes, ℤ, pos, negsuc, magnitude, ◌*ℤ◌, ◌>>=◌, to_string,
  digits_from,
}
use coralswap_sdk.Amounts.Decimal.{from_soroban_amount, parse_decimal_string}
use coralswap_sdk.Fractions.{
  round_down, round_half_up, new_fraction, fraction, whole, quotient, invert, add, sub, multiply,
  divide_by, divide_with_rounding, to_fixed, percent_to_fixed,
}
use coralswap_sdk.Fractions.Rounded.{with_sign, Rounds, divide_with_rounding-Rounds}
use coralswap_sdk.Fractions.Fixed.{to_fixed-parse_decimal_string}
use coralswap_sdk.Fractions.Field.{frac, divide_by-invert}

sums :
    (add (frac (pos 1) 2) (fraction (frac (pos 1) 3)) ≡ ok (frac (pos 5) 6))
    × (sub (frac (pos 1) 2) (whole (pos 1)) ≡ ok (frac (negsuc 0) 2))
    × (quotient (frac (negsuc 6) 2) ≡ ok (negsuc 2))
unfolding add sub new_fraction quotient
sums = (refl, refl, refl)

printed : to_fixed (frac (negsuc 1) 3) (pos 3) round_half_up ≡ ok (codes "-0.667")
unfolding to_fixed divide_with_rounding to_string digits_from
printed = refl

percent : percent_to_fixed (frac (pos 1) 8) (pos 2) round_down ≡ ok (codes "12.50")
unfolding percent_to_fixed multiply new_fraction to_fixed divide_with_rounding to_string digits_from
percent = refl

divide_with_rounding-Rounds_example :
    (m : ℕ) × (divide_with_rounding (negsuc 6) (pos 2) round_half_up ≡ ok (with_sign (negsuc 6) m))
    × Rounds round_half_up m (magnitude (negsuc 6)) 2
divide_with_rounding-Rounds_example =
    divide_with_rounding-Rounds (negsuc 6) 2 round_half_up (omega arith)

to_fixed-parse_decimal_string_example :
    (q : ℤ) × (divide_with_rounding (negsuc 1 *ℤ pos (10 ^ 3)) (pos 3) round_half_up ≡ ok q)
    × (codes "-0.667" ≡ from_soroban_amount q 3)
    × (parse_decimal_string (codes "-0.667") (pos 3) ≡ ok q)
to_fixed-parse_decimal_string_example =
    to_fixed-parse_decimal_string (frac (negsuc 1) 3) 3 round_half_up printed

divide_by-invert_example :
    divide_by (frac (pos 1) 2) (fraction (frac (negsuc 2) 4))
    ≡ (invert (frac (negsuc 2) 4) >>= λ inverse. multiply (frac (pos 1) 2) (fraction inverse))
divide_by-invert_example = divide_by-invert (pos 1) (negsuc 2) 1 3
