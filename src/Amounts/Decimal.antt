-- ===== src/Amounts/Decimal.antt =====
-- The text of token amounts in src/utils/amounts.ts: parseDecimalString and fromSorobanAmount, with the
-- functions that call them. The number of decimals is a whole number.
use coralswap_sdk.Common.{
  ℕ, ◌+◌, ◌-◌, Bool, false, not, ◌&&◌, ◌||◌, if◌then◌else◌, [], ◌∷◌, ◌++◌, length, take, drop,
  Option, none, some, Result, ok, err, plain, throw_if, ◌>>◌, Text, trim, pad_start, pad_end,
  is_digit, big_int, to_string, ltb, ◌==◌, ℤ, pos, negsuc, pos_part, magnitude, ltb_ℤ, ◌*ℤ◌,
}

-- The digits at the start of a text, and the rest of it.
unfoldable pub span_digits : Text → Text × Text
span_digits [] = ([], [])
span_digits (c ∷ s) =
    let (front, rest) = span_digits s in if is_digit c then (c ∷ front, rest) else ([], c ∷ s)

-- What follows the whole digits: nothing, or a point and one or more digits.
abbrev pub digits_only : Text × Text → Option Text
digits_only (digits, rest) =
    if not (length digits == 0) && length rest == 0 then some digits else none

abbrev pub fraction_of : Text → Option Text
fraction_of [] = some []
fraction_of (c ∷ s) = if c == b'.' then digits_only (span_digits s) else none

abbrev pub parts_of : Text × Text → Option (Text × Text)
parts_of (whole, rest) =
    if length whole == 0
    then none
    else elim (fraction_of rest) [ none ↦ none | some fraction ↦ some (whole, fraction) ]

-- `/^\d+(\.\d+)?$/`, and `numeric.split(".")` where it matches.
unfoldable pub whole_and_fraction : Text → Option (Text × Text)
whole_and_fraction numeric = parts_of (span_digits numeric)

abbrev pub starts_with : ℕ → Text → Bool
starts_with c [] = false
starts_with c (d ∷ s) = d == c

abbrev pub scaled : Text → ℕ → Text
scaled fraction decimals =
    if ltb decimals (length fraction) then take decimals fraction else pad_end decimals fraction

abbrev pub parsed : (sign : ℤ) → ℕ → Option (Text × Text) → Result ℤ
parsed sign decimals none = err plain
parsed sign decimals (some (whole, fraction)) =
    ok (sign *ℤ pos (big_int (whole ++ scaled fraction decimals)))

abbrev pub parse_trimmed : Text → ℕ → Result ℤ
parse_trimmed trimmed decimals =
    let is_negative = starts_with b'-' trimmed in
    let is_positive = starts_with b'+' trimmed in
    throw_if (length trimmed == 0) plain
    >> parsed (if is_negative then negsuc 0 else pos 1) decimals
        (whole_and_fraction (if is_negative || is_positive then drop 1 trimmed else trimmed))

unfoldable pub parse_decimal_string : Text → ℤ → Result ℤ
parse_decimal_string amount decimals =
    throw_if (ltb_ℤ decimals (pos 0)) plain >> parse_trimmed (trim amount) (pos_part decimals)

unfoldable pub to_soroban_amount : Text → ℤ → Result ℤ
to_soroban_amount amount decimals = parse_decimal_string amount decimals

unfoldable pub parse_token_amount : Text → ℤ → Result ℤ
parse_token_amount amount decimals = parse_decimal_string amount decimals

abbrev pub with_point : Text → ℕ → Text
with_point str decimals =
    let whole = take (length str - decimals) str in
    let frac = drop (length str - decimals) str in
    if decimals == 0 then whole else whole ++ b'.' ∷ frac

abbrev pub unsigned : ℕ → ℕ → Text
unsigned abs decimals = with_point (pad_start (decimals + 1) (to_string abs)) decimals

unfoldable pub from_soroban_amount : ℤ → ℕ → Text
from_soroban_amount amount decimals =
    let result = unsigned (magnitude amount) decimals in
    if ltb_ℤ amount (pos 0) then b'-' ∷ result else result

-- `raw.split(".")`: what stands before the first point, and what stands between it and the next.
unfoldable pub before_point : Text → Text
before_point [] = []
before_point (c ∷ s) = let rest = before_point s in if c == b'.' then [] else c ∷ rest

unfoldable pub after_point : Text → Text
unfolding before_point
after_point [] = []
after_point (c ∷ s) = let rest = after_point s in if c == b'.' then before_point s else rest

unfoldable pub format_amount : ℤ → (decimals display_decimals : ℕ) → Text
format_amount amount decimals display_decimals =
    let raw = from_soroban_amount amount decimals in
    before_point raw ++ b'.' ∷ take display_decimals (after_point raw)
