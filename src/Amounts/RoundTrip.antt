-- ===== src/Amounts/RoundTrip.antt =====
-- The text of an amount in src/utils/amounts.ts is read back as the amount.
use coralswap_sdk.Common.{
  take-append-drop, length-take, length-drop, ℕ, zero, suc, ◌+◌, ◌-◌, ◌*◌, ◌≤◌, ◌<◌, ◌≡◌, refl, sym,
  ap, ◌∙◌, arith, true, false, [], ◌∷◌, ◌++◌, length, take, drop, some, ok, Text, pad_start,
  is_digit, big_int, to_string, ltb, ◌==◌, ℤ, pos, negsuc, minus, ◌*ℤ◌, ltb_ℤ,
}
use coralswap_sdk.Common.Digits.{
  Digits, Digits-take, Digits-drop, Digits-to_string, Digits-pad_start, big_int-pad_start,
  le-length-pad_start, Visible, Digits-Visible, Visible-append, trim-Visible,
}
use coralswap_sdk.Amounts.Decimal.{
  span_digits, digits_only, parts_of, whole_and_fraction, scaled, parse_trimmed,
  parse_decimal_string, unsigned, from_soroban_amount,
}

is_digit_of : (c : ℕ) → b'0' ≤ c → c ≤ b'9' → is_digit c ≡ true
is_digit_of c low high = ground arith

span_all : (s : Text) → Digits s → span_digits s ≡ (s, [])
unfolding span_digits
span_all [] h = refl
span_all (c ∷ s) (low, high, h) = rw (is_digit_of c low high, span_all s h) refl

span_to_point : (s f : Text) → Digits s → span_digits (s ++ b'.' ∷ f) ≡ (s, b'.' ∷ f)
unfolding span_digits
span_to_point [] f h = refl
span_to_point (c ∷ s) f (low, high, h) = rw (is_digit_of c low high, span_to_point s f h) refl

not_empty : (s : Text) → 0 < length s → (length s == 0) ≡ false
not_empty s h = ground arith

whole_only : (s : Text) → Digits s → 0 < length s → whole_and_fraction s ≡ some (s, [])
unfolding whole_and_fraction
whole_only s h n = ap parts_of (span_all s h) ∙ only
  where
    only : parts_of (s, []) ≡ some (s, [])
    only = rw (not_empty s n) refl

pub with_fraction :
    (s f : Text)
    → Digits s
    → Digits f
    → 0 < length s
    → 0 < length f
    → whole_and_fraction (s ++ b'.' ∷ f) ≡ some (s, f)
unfolding whole_and_fraction
with_fraction s f h k n m = ap parts_of (span_to_point s f h) ∙ both
  where
    digits : digits_only (span_digits f) ≡ some f
    digits = ap digits_only (span_all f k) ∙ (rw (not_empty f m) refl)

    both : parts_of (s, b'.' ∷ f) ≡ some (s, f)
    both = rw (not_empty s n, digits) refl

abbrev pub StartsWithDigit : Text → Type 0
StartsWithDigit [] = ⊥
StartsWithDigit (c ∷ s) = (b'0' ≤ c) × (c ≤ b'9')

pub first_digit : (s t : Text) → Digits s → 0 < length s → StartsWithDigit (s ++ t)
first_digit [] t h n = elim n [ ]
first_digit (c ∷ s) t (low, high, h) n = (low, high)

append_nil : (s : Text) → s ++ [] ≡ s
append_nil [] = refl
append_nil (c ∷ s) = ap (λ (t : Text). c ∷ t) (append_nil s)

is_nil : (s : Text) → length s ≡ 0 → s ≡ []
is_nil [] h = refl
is_nil (c ∷ s) h = absurd (omega (arith, h))

scaled_same : (f : Text) (d : ℕ) → length f ≡ d → scaled f d ≡ f
scaled_same f d e =
    let small : (ltb d (length f) ≡ false) = ground (arith, e) in
    let none_left : (d - length f ≡ 0) = omega (arith, e) in rw (small, none_left) (append_nil f)

module _ (d abs : ℕ) where
  abbrev str : Text
  str = pad_start (d + 1) (to_string abs)

  abbrev whole : Text
  whole = take (length str - d) str

  abbrev frac : Text
  frac = drop (length str - d) str

  Digits-str : Digits str
  Digits-str = Digits-pad_start (d + 1) (to_string abs) (Digits-to_string abs)

  some_whole : 0 < length whole
  some_whole = omega (
    arith,
    le-length-pad_start (d + 1) (to_string abs),
    length-take (length str - d) str (omega arith),
  )

  length-frac : length frac ≡ d
  length-frac =
      omega (arith, le-length-pad_start (d + 1) (to_string abs), length-drop (length str - d) str)

  whole-frac : big_int (whole ++ frac) ≡ abs
  whole-frac = ap big_int (take-append-drop (length str - d) str) ∙ big_int-pad_start (d + 1) abs

read_back : (d abs : ℕ) → big_int (whole d abs ++ scaled (frac d abs) d) ≡ abs
read_back d abs =
    ap (λ (t : Text). big_int (whole d abs ++ t)) (scaled_same (frac d abs) d (length-frac d abs))
    ∙ whole-frac d abs

Digits-whole : (d abs : ℕ) → Digits (whole d abs)
Digits-whole d abs = Digits-take (length (str d abs) - d) (str d abs) (Digits-str d abs)

Digits-frac : (d abs : ℕ) → Digits (frac d abs)
Digits-frac d abs = Digits-drop (length (str d abs) - d) (str d abs) (Digits-str d abs)

suc_not_zero : (n : ℕ) → (suc n == 0) ≡ false
suc_not_zero n = ground arith

unsigned-suc : (abs d : ℕ) → unsigned abs (suc d) ≡ whole (suc d) abs ++ b'.' ∷ frac (suc d) abs
unsigned-suc abs d = rw (suc_not_zero d) refl

reads_unsigned : (abs d : ℕ) → whole_and_fraction (unsigned abs d) ≡ some (whole d abs, frac d abs)
reads_unsigned abs zero =
    rw (is_nil (frac 0 abs) (length-frac 0 abs))
      (whole_only (whole 0 abs) (Digits-whole 0 abs) (some_whole 0 abs))
reads_unsigned abs (suc d) = rw (unsigned-suc abs d) (
    with_fraction (whole (suc d) abs) (frac (suc d) abs) (Digits-whole (suc d) abs)
      (Digits-frac (suc d) abs) (some_whole (suc d) abs) (omega (arith, length-frac (suc d) abs)))

first_unsigned : (abs d : ℕ) → StartsWithDigit (unsigned abs d)
first_unsigned abs zero =
    rw (sym (append_nil (whole 0 abs)))
      (first_digit (whole 0 abs) [] (Digits-whole 0 abs) (some_whole 0 abs))
first_unsigned abs (suc d) = rw (unsigned-suc abs d) (
    first_digit (whole (suc d) abs) (b'.' ∷ frac (suc d) abs) (Digits-whole (suc d) abs)
      (some_whole (suc d) abs))

Visible-unsigned : (abs d : ℕ) → Visible (unsigned abs d)
Visible-unsigned abs zero = Digits-Visible (whole 0 abs) (Digits-whole 0 abs)
Visible-unsigned abs (suc d) = rw (unsigned-suc abs d) (
    Visible-append (whole (suc d) abs) (b'.' ∷ frac (suc d) abs)
      (Digits-Visible (whole (suc d) abs) (Digits-whole (suc d) abs))
      (omega arith, omega arith, Digits-Visible (frac (suc d) abs) (Digits-frac (suc d) abs)))

pub parse_positive :
    (t w f : Text) (d : ℕ)
    → StartsWithDigit t
    → whole_and_fraction t ≡ some (w, f)
    → parse_trimmed t d ≡ ok (pos 1 *ℤ pos (big_int (w ++ scaled f d)))
parse_positive [] w f d first reads = absurd first
parse_positive (c ∷ t) w f d (low, high) reads =
    let no_minus : ((c == b'-') ≡ false) = ground arith in
    let no_plus : ((c == b'+') ≡ false) = ground arith in
    rw (no_minus, no_plus, suc_not_zero (length t), reads) refl

pub parse_negative :
    (t w f : Text) (d : ℕ)
    → whole_and_fraction t ≡ some (w, f)
    → parse_trimmed (b'-' ∷ t) d ≡ ok (negsuc 0 *ℤ pos (big_int (w ++ scaled f d)))
parse_negative t w f d reads = rw (suc_not_zero (length t), reads) refl

pub whole_decimals :
    (t : Text) (d : ℕ) → Visible t → parse_decimal_string t (pos d) ≡ parse_trimmed t d
unfolding parse_decimal_string
whole_decimals t d h =
    let not_negative : (ltb_ℤ (pos d) (pos 0) ≡ false) = ground arith in
    rw (not_negative, trim-Visible t h) refl

pub unsigned_text : (n d : ℕ) → from_soroban_amount (pos n) d ≡ unsigned n d
unfolding from_soroban_amount
unsigned_text n d = let e : (ltb_ℤ (pos n) (pos 0) ≡ false) = ground arith in rw e refl

pub signed_text : (n d : ℕ) → from_soroban_amount (negsuc n) d ≡ b'-' ∷ unsigned (suc n) d
unfolding from_soroban_amount
signed_text n d = let e : (ltb_ℤ (negsuc n) (pos 0) ≡ true) = ground arith in rw e refl

pub one_times : (n : ℕ) → pos 1 *ℤ pos n ≡ pos n
one_times n = let e : (1 * n ≡ n) = omega arith in ap pos e

pub minus_once : (n : ℕ) → negsuc 0 *ℤ pos (suc n) ≡ negsuc n
minus_once n = let e : (1 * suc n ≡ suc n) = omega arith in ap minus e

-- The text of any amount, with any number of decimals, is read back as that amount.
pub parse_decimal_string-from_soroban_amount :
    (amount : ℤ) (decimals : ℕ)
    → parse_decimal_string (from_soroban_amount amount decimals) (pos decimals) ≡ ok amount
parse_decimal_string-from_soroban_amount (pos n) d =
    ap (λ t. parse_decimal_string t (pos d)) (unsigned_text n d)
    ∙ whole_decimals (unsigned n d) d (Visible-unsigned n d)
    ∙ parse_positive (unsigned n d) (whole d n) (frac d n) d (first_unsigned n d)
        (reads_unsigned n d)
    ∙ ap ok (ap (λ (k : ℕ). pos 1 *ℤ pos k) (read_back d n) ∙ one_times n)
parse_decimal_string-from_soroban_amount (negsuc n) d =
    let t = unsigned (suc n) d in
    ap (λ t. parse_decimal_string t (pos d)) (signed_text n d)
    ∙ whole_decimals (b'-' ∷ t) d (omega arith, omega arith, Visible-unsigned (suc n) d)
    ∙ parse_negative t (whole d (suc n)) (frac d (suc n)) d (reads_unsigned (suc n) d)
    ∙ ap ok (ap (λ (k : ℕ). negsuc 0 *ℤ pos k) (read_back d (suc n)) ∙ minus_once n)
