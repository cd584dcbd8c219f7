-- ===== src/Fractions/Fixed.antt =====
-- What `toFixed` of src/utils/math.ts prints.
use coralswap_sdk.Common.{
  ℕ, ◌^◌, ◌≡◌, refl, sym, ap, ◌∙◌, arith, false, ◌∷◌, [], ok, bind-returned, guard-passed,
  ok-injective, plain, Text, to_string, ℤ, pos, negsuc, ltb_ℤ, ◌*ℤ◌,
}
use coralswap_sdk.Common.Digits.{Digits, Digits-to_string}
use coralswap_sdk.Amounts.Decimal.{starts_with, from_soroban_amount, parse_decimal_string}
use coralswap_sdk.Amounts.RoundTrip.{
  unsigned_text, signed_text, parse_decimal_string-from_soroban_amount,
}
use coralswap_sdk.Fractions.{
  Rounding, Fraction, divide_with_rounding, text_of, fixed_text, to_fixed,
}

no_minus : (s : Text) → Digits s → starts_with b'-' s ≡ false
no_minus [] h = refl
no_minus (c ∷ s) (low, high, h) = ground arith

-- It prints as an amount with that many decimals does.
fixed_text-from_soroban_amount :
    (q : ℤ) (d : ℕ) → fixed_text d (text_of q) ≡ from_soroban_amount q d
fixed_text-from_soroban_amount (pos n) d =
    rw (no_minus (to_string n) (Digits-to_string n)) (sym (unsigned_text n d))
fixed_text-from_soroban_amount (negsuc n) d = sym (signed_text n d)

-- The text of a fraction with a number of decimals is that of the amount that the fraction, scaled by as many powers
-- of ten, rounds to; read back with as many decimals it gives that amount.
pub to_fixed-parse_decimal_string :
    (f : Fraction) (decimals : ℕ) (mode : Rounding) {t : Text}
    → to_fixed f (pos decimals) mode ≡ ok t
    → (q : ℤ) × (divide_with_rounding (f.numerator *ℤ pos (10 ^ decimals)) f.denominator mode
        ≡ ok q)
      × (t ≡ from_soroban_amount q decimals)
      × (parse_decimal_string t (pos decimals) ≡ ok q)
unfolding to_fixed
to_fixed-parse_decimal_string f d mode e =
    let (whole, rest) = guard-passed (ltb_ℤ (pos d) (pos 0)) plain _ e in
    let r =
      bind-returned (divide_with_rounding (f.numerator *ℤ pos (10 ^ d)) f.denominator mode) _
        rest in
    let same = sym (ok-injective r.then_rest) ∙ fixed_text-from_soroban_amount r.value d in
    (
      r.value,
      r.first,
      same,
      ap (λ (s : Text). parse_decimal_string s (pos d)) same
          ∙ parse_decimal_string-from_soroban_amount r.value d,
    )
