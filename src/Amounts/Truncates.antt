-- ===== src/Amounts/Truncates.antt =====
-- What parseDecimalString of src/utils/amounts.ts makes of a number with too many decimals, or with few.
use coralswap_sdk.Common.{
  take-append-drop, length-drop, ℕ, ◌+◌, ◌-◌, ◌*◌, ◌^◌, ◌≤◌, ◌<◌, ◌≡◌, sym, ap, ◌∙◌, arith, ◌∷◌,
  ◌++◌, length, take, drop, ok, Text, zeros, big_int, ltb, pos, minus, ltb→lt, Bool-cases, inl, inr,
}
use mathlib.Core.Path.{subst}
use mathlib.Core.List.{append_assoc}
use coralswap_sdk.Common.Digits.{Digits, Digits-drop, Digits-Visible, Visible, Visible-append}
use coralswap_sdk.Common.Places.{pow-plus, pow_positive, big_int-append, big_int-lt, big_int_padded}
use coralswap_sdk.Common.Division.{times_mono}
use coralswap_sdk.Amounts.Decimal.{scaled, parse_decimal_string}
use coralswap_sdk.Amounts.RoundTrip.{
  with_fraction, first_digit, parse_positive, parse_negative, whole_decimals, one_times,
}

-- `q` is `n * 10 ^ d / 10 ^ e`, rounded down.
abbrev pub Floor : (q n d e : ℕ) → Type 0
Floor q n d e = (q * 10 ^ e ≤ n * 10 ^ d) × (n * 10 ^ d < (q + 1) * 10 ^ e)

cut-Floor :
    (q r v n d e : ℕ) → n ≡ q * 10 ^ r + v → v < 10 ^ r → 10 ^ e ≡ 10 ^ d * 10 ^ r → Floor q n d e
cut-Floor q r v n d e split small powers =
    let by_d = ap (λ (k : ℕ). k * 10 ^ d) split in
    let by_q = ap (λ (k : ℕ). q * k) powers in
    let rest = times_mono (v + 1) (10 ^ r) (10 ^ d) (omega (arith, small)) in
    (omega (arith, by_d, by_q), omega (arith, by_d, by_q, rest, powers, pow_positive d))

padded-Floor : (n k d e : ℕ) → 10 ^ d ≡ 10 ^ e * 10 ^ k → Floor (n * 10 ^ k) n d e
padded-Floor n k d e powers =
    let by_n = ap (λ (t : ℕ). n * t) powers in
    (omega (arith, by_n), omega (arith, by_n, pow_positive e))

split_power : (d r e : ℕ) → e ≡ d + r → 10 ^ e ≡ 10 ^ d * 10 ^ r
split_power d r e h = ap (λ (k : ℕ). 10 ^ k) h ∙ pow-plus d r

cut_scaled :
    (w f : Text) (d : ℕ)
    → Digits f
    → d < length f
    → Floor (big_int (w ++ take d f)) (big_int (w ++ f)) d (length f)
cut_scaled w f d digits h =
    let g = take d f in
    let r = drop d f in
    let whole : (w ++ f ≡ (w ++ g) ++ r) =
      ap (λ (t : Text). w ++ t) (sym (take-append-drop d f)) ∙ sym (append_assoc w g r) in
    cut-Floor (big_int (w ++ g)) (length r) (big_int r) (big_int (w ++ f)) d (length f)
      (ap big_int whole ∙ big_int-append (w ++ g) r) (big_int-lt r (Digits-drop d f digits))
      (split_power d (length r) (length f) (omega (arith, length-drop d f)))

pad_scaled :
    (w f : Text) (d : ℕ)
    → length f ≤ d
    → Floor (big_int (w ++ (f ++ zeros (d - length f)))) (big_int (w ++ f)) d (length f)
pad_scaled w f d h =
    let k = d - length f in
    let value : (big_int (w ++ (f ++ zeros k)) ≡ big_int (w ++ f) * 10 ^ k) =
      ap big_int (sym (append_assoc w f (zeros k))) ∙ big_int_padded (w ++ f) k in
    subst (λ q. Floor q (big_int (w ++ f)) d (length f)) (sym value)
      (padded-Floor (big_int (w ++ f)) k d (length f) (split_power (length f) k d (omega arith)))

scaled-Floor :
    (w f : Text) (d : ℕ)
    → Digits f
    → Floor (big_int (w ++ scaled f d)) (big_int (w ++ f)) d (length f)
scaled-Floor w f d digits = elim (Bool-cases (ltb d (length f))) [
  | inl longer ↦ rw longer (cut_scaled w f d digits (ltb→lt d (length f) longer))
  | inr shorter ↦ rw shorter (pad_scaled w f d (ground arith))
]

-- A number written with digits, a point and digits is read as the number that it stands for, in units of
-- `10 ^ -decimals` and rounded towards zero, however many decimals it has; with a minus sign in front, as
-- minus that.
pub parse_decimal_string-Floor :
    (w f : Text) (decimals : ℕ)
    → Digits w
    → Digits f
    → 0 < length w
    → 0 < length f
    → (q : ℕ) × (parse_decimal_string (w ++ b'.' ∷ f) (pos decimals) ≡ ok (pos q))
      × (parse_decimal_string (b'-' ∷ w ++ b'.' ∷ f) (pos decimals) ≡ ok (minus q))
      × (q * 10 ^ length f ≤ big_int (w ++ f) * 10 ^ decimals)
      × (big_int (w ++ f) * 10 ^ decimals < (q + 1) * 10 ^ length f)
parse_decimal_string-Floor w f d digits decimals some_w some_f =
    let t = w ++ b'.' ∷ f in
    let q = big_int (w ++ scaled f d) in
    let reads = with_fraction w f digits decimals some_w some_f in
    let visible : Visible t =
      Visible-append w (b'.' ∷ f) (Digits-Visible w digits)
        (omega arith, omega arith, Digits-Visible f decimals) in
    let (low, high) = scaled-Floor w f d decimals in
    let once : (1 * q ≡ q) = omega arith in
    (
      q,
      whole_decimals t d visible
          ∙ parse_positive t w f d (first_digit w (b'.' ∷ f) digits some_w) reads
          ∙ ap ok (one_times q),
      whole_decimals (b'-' ∷ t) d (omega arith, omega arith, visible)
          ∙ parse_negative t w f d reads
          ∙ ap (λ (k : ℕ). ok (minus k)) once,
      low,
      high,
    )
