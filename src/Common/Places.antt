-- ===== src/Common/Places.antt =====
-- Digits as numbers: what it does to a number to put digits after it, or to cut digits off.
use Prim.Native.Nat.{ℕ, zero, suc, ◌+◌, ◌-◌, ◌*◌, ◌^◌, ◌≤◌, ◌<◌}
use mathlib.Core.Path.{◌≡◌, refl, ap, ◌∙◌}
use mathlib.Core.List.{[], ◌∷◌, ◌++◌}
use native.Mathlib.Nat.{pow-succ'}
use native.Mathlib.Omega.{arith}
use coralswap_sdk.Common.Lists.{length, length-replicate}
use coralswap_sdk.Common.Strings.{Text, zeros, value_from, big_int}
use coralswap_sdk.Common.Digits.{Digits, value_from-append}

ten_pow : (n : ℕ) → 10 ^ suc n ≡ 10 * 10 ^ n
ten_pow n = pow-succ' 10 n

pub pow-plus : (a b : ℕ) → 10 ^ (a + b) ≡ 10 ^ a * 10 ^ b
pow-plus zero b = ap (λ (k : ℕ). 10 ^ k) zero_plus ∙ omega arith
  where
    zero_plus : 0 + b ≡ b
    zero_plus = omega arith
pow-plus (suc a) b =
    ap (λ (k : ℕ). 10 ^ k) suc_plus
    ∙ ten_pow (a + b)
    ∙ omega (arith, pow-plus a b, ap (λ (k : ℕ). k * 10 ^ b) (ten_pow a))
  where
    suc_plus : suc a + b ≡ suc (a + b)
    suc_plus = omega arith

pub pow_positive : (n : ℕ) → 0 < 10 ^ n
pow_positive zero = omega arith
pow_positive (suc n) = omega (arith, ten_pow n, pow_positive n)

value_from-shift :
    (total : ℕ) (s : Text) → value_from total s ≡ total * 10 ^ length s + value_from 0 s
value_from-shift total [] = omega arith
value_from-shift total (c ∷ s) = omega (
  arith,
  value_from-shift (total * 10 + (c - b'0')) s,
  value_from-shift (0 * 10 + (c - b'0')) s,
  ap (λ (k : ℕ). total * k) (ten_pow (length s)),
)

value_from-lt : (s : Text) → Digits s → value_from 0 s < 10 ^ length s
value_from-lt [] h = omega arith
value_from-lt (c ∷ s) (low, high, h) = omega (
  arith,
  value_from-shift (0 * 10 + (c - b'0')) s,
  value_from-lt s h,
  ten_pow (length s),
  le_nine (c - b'0') (10 ^ length s) (omega arith),
)
  where
    le_nine : (x p : ℕ) → x ≤ 9 → x * p ≤ 9 * p
    le_nine x p h = grind arith

pub big_int-append : (s t : Text) → big_int (s ++ t) ≡ big_int s * 10 ^ length t + big_int t
unfolding big_int
big_int-append s t = value_from-append 0 s t ∙ value_from-shift (value_from 0 s) t

pub big_int-lt : (s : Text) → Digits s → big_int s < 10 ^ length s
unfolding big_int
big_int-lt s h = value_from-lt s h

big_int-zeros : (n : ℕ) → big_int (zeros n) ≡ 0
unfolding big_int
big_int-zeros zero = refl
big_int-zeros (suc n) = unfold big_int in big_int-zeros n

-- Zeros at the end multiply.
pub big_int_padded : (s : Text) (n : ℕ) → big_int (s ++ zeros n) ≡ big_int s * 10 ^ n
big_int_padded s n =
    big_int-append s (zeros n)
    ∙ omega (
      arith,
      big_int-zeros n,
      ap (λ (k : ℕ). big_int s * 10 ^ k) (length-replicate {A = ℕ} n b'0'),
    )
