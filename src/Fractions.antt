-- ===== src/Fractions.antt =====
-- Fractions of whole numbers (src/utils/math.ts): Fraction and Percent. An operand is a fraction or a BigInt.
pub mod Rounded
pub mod Fixed
pub mod Field
mod Tests
use coralswap_sdk.Common.{
  ℕ, suc, ◌+◌, ◌*◌, ◌/◌, ◌^◌, Bool, true, false, not, if◌then◌else◌, ◌∷◌, drop, Result, ok, err,
  plain, range, throw_if, ◌>>=◌, ◌>>◌, Text, pad_start, to_string, ltb, leb, ◌==◌, ℤ, pos, negsuc,
  neg, magnitude, quot, rem, is_zero, ltb_ℤ, leb_ℤ, eqb_ℤ, ◌+ℤ◌, ◌-ℤ◌, ◌*ℤ◌, divide,
}
use coralswap_sdk.Amounts.Decimal.{starts_with, with_point}

pub data Rounding : Type 0 where
  round_down round_half_up round_up : Rounding

pub record Fraction : Type 0 where
  pub numerator : ℤ
  pub denominator : ℤ

unfoldable pub new_fraction : (numerator denominator : ℤ) → Result Fraction
new_fraction numerator denominator =
    throw_if (leb_ℤ denominator (pos 0)) plain
    >> ok (record { numerator = numerator; denominator = denominator })

pub data Operand : Type 0 where
  fraction : Fraction → Operand
  whole : ℤ → Operand

abbrev pub parsed : Operand → Result Fraction
parsed (fraction f) = ok f
parsed (whole n) = new_fraction n (pos 1)

unfoldable pub quotient : Fraction → Result ℤ
quotient f = divide f.numerator f.denominator

unfoldable pub remainder : Fraction → Result Fraction
remainder f =
    throw_if (is_zero f.denominator) range
    >> new_fraction (rem f.numerator f.denominator) f.denominator

unfoldable pub invert : Fraction → Result Fraction
invert f =
    if ltb_ℤ f.numerator (pos 0)
    then new_fraction (neg f.denominator) (neg f.numerator)
    else new_fraction f.denominator f.numerator

abbrev pub add_fraction : Fraction → Fraction → Result Fraction
add_fraction a b =
    if eqb_ℤ a.denominator b.denominator
    then new_fraction (a.numerator +ℤ b.numerator) a.denominator
    else new_fraction (a.numerator *ℤ b.denominator +ℤ b.numerator *ℤ a.denominator)
        (a.denominator *ℤ b.denominator)

unfoldable pub add : Fraction → Operand → Result Fraction
add a other = parsed other >>= add_fraction a

abbrev pub sub_fraction : Fraction → Fraction → Result Fraction
sub_fraction a b =
    if eqb_ℤ a.denominator b.denominator
    then new_fraction (a.numerator -ℤ b.numerator) a.denominator
    else new_fraction (a.numerator *ℤ b.denominator -ℤ b.numerator *ℤ a.denominator)
        (a.denominator *ℤ b.denominator)

unfoldable pub sub : Fraction → Operand → Result Fraction
sub a other = parsed other >>= sub_fraction a

abbrev pub multiply_fraction : Fraction → Fraction → Result Fraction
multiply_fraction a b = new_fraction (a.numerator *ℤ b.numerator) (a.denominator *ℤ b.denominator)

unfoldable pub multiply : Fraction → Operand → Result Fraction
multiply a other = parsed other >>= multiply_fraction a

abbrev pub divide_fraction : Fraction → Fraction → Result Fraction
divide_fraction a b =
    let new_numerator = a.numerator *ℤ b.denominator in
    let new_denominator = a.denominator *ℤ b.numerator in
    if ltb_ℤ new_denominator (pos 0)
    then new_fraction (neg new_numerator) (neg new_denominator)
    else new_fraction new_numerator new_denominator

unfoldable pub divide_by : Fraction → Operand → Result Fraction
divide_by a other = parsed other >>= divide_fraction a

abbrev pub increment : Rounding → (rem_abs den_abs : ℕ) → ℕ
increment round_down rem_abs den_abs = 0
increment round_up rem_abs den_abs = if ltb 0 rem_abs then 1 else 0
increment round_half_up rem_abs den_abs = if leb den_abs (rem_abs * 2) then 1 else 0

abbrev pub same_bool : Bool → Bool → Bool
same_bool true b = b
same_bool false b = not b

abbrev pub rounded : (numerator denominator : ℤ) → Rounding → ℤ
rounded numerator denominator rounding =
    let num_abs = magnitude numerator in
    let den_abs = magnitude denominator in
    let rem_abs = magnitude (rem numerator denominator) in
    let result = num_abs / den_abs + increment rounding rem_abs den_abs in
    let is_positive = same_bool (not (ltb_ℤ numerator (pos 0))) (not (ltb_ℤ denominator (pos 0))) in
    if is_positive then pos result else neg (pos result)

unfoldable pub divide_with_rounding : (numerator denominator : ℤ) → Rounding → Result ℤ
divide_with_rounding numerator denominator rounding = divide numerator denominator >>= λ q.
    ok (if is_zero (rem numerator denominator) then q else rounded numerator denominator rounding)

-- `quotient.toString()`
abbrev pub text_of : ℤ → Text
text_of (pos n) = to_string n
text_of (negsuc n) = b'-' ∷ to_string (suc n)

-- The loop of `toFixed` puts zeros in front until there are more than `decimal_places` digits.
abbrev pub fixed_text : (decimal_places : ℕ) → Text → Text
fixed_text decimal_places str =
    let is_negative = starts_with b'-' str in
    let digits = if is_negative then drop 1 str else str in
    let result = with_point (pad_start (decimal_places + 1) digits) decimal_places in
    if is_negative then b'-' ∷ result else result

unfoldable pub to_fixed : Fraction → (decimal_places : ℤ) → Rounding → Result Text
to_fixed f decimal_places rounding =
    throw_if (ltb_ℤ decimal_places (pos 0)) plain
    >> divide_with_rounding (f.numerator *ℤ pos (10 ^ magnitude decimal_places)) f.denominator
        rounding
    >>= λ q. ok (fixed_text (magnitude decimal_places) (text_of q))

-- `Percent.toFixed`
unfoldable pub percent_to_fixed : Fraction → (decimal_places : ℤ) → Rounding → Result Text
percent_to_fixed f decimal_places rounding =
    multiply f (fraction (record { numerator = pos 100; denominator = pos 1 })) >>= λ hundredfold.
    to_fixed hundredfold decimal_places rounding
