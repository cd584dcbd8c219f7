-- ===== src/Amounts/DecimalTests.antt =====
-- Amounts printed and read back.
use coralswap_sdk.Common.{
  ℕ, ◌+◌, ◌*◌, ◌^◌, ◌≤◌, ◌<◌, ◌≡◌, refl, arith, ◌++◌, ◌∷◌, ok, codes, pos, negsuc, minus, trim,
  trim_start, trim_end, is_space, has_content, big_int, to_string, digits_from,
}
use coralswap_sdk.Amounts.Decimal.{
  span_digits, whole_and_fraction, parse_decimal_string, from_soroban_amount, before_point,
  after_point, format_amount,
}
use coralswap_sdk.Amounts.RoundTrip.{parse_decimal_string-from_soroban_amount}
use coralswap_sdk.Amounts.Truncates.{parse_decimal_string-Floor}

printed : from_soroban_amount (negsuc 12344) 7 ≡ codes "-0.0012345"
unfolding from_soroban_amount to_string digits_from
printed = refl

shown : format_amount (pos 123456789) 7 4 ≡ codes "12.3456"
unfolding format_amount from_soroban_amount to_string digits_from before_point after_point
shown = refl

read : parse_decimal_string (codes " +1.5 ") (pos 7) ≡ ok (pos 15000000)
unfolding parse_decimal_string trim trim_start trim_end is_space has_content whole_and_fraction
    span_digits big_int
read = refl

parse_decimal_string-from_soroban_amount_example :
    parse_decimal_string (from_soroban_amount (negsuc 12344) 7) (pos 7) ≡ ok (negsuc 12344)
parse_decimal_string-from_soroban_amount_example =
    parse_decimal_string-from_soroban_amount (negsuc 12344) 7

parse_decimal_string-Floor_example :
    (q : ℕ) × (parse_decimal_string (codes "1" ++ b'.' ∷ codes "999") (pos 2) ≡ ok (pos q))
    × (parse_decimal_string (b'-' ∷ codes "1" ++ b'.' ∷ codes "999") (pos 2) ≡ ok (minus q))
    × (q * 10 ^ 3 ≤ big_int (codes "1" ++ codes "999") * 10 ^ 2)
    × (big_int (codes "1" ++ codes "999") * 10 ^ 2 < (q + 1) * 10 ^ 3)
parse_decimal_string-Floor_example =
    parse_decimal_string-Floor (codes "1") (codes "999") 2 (omega arith) (omega arith) (omega arith)
      (omega arith)
