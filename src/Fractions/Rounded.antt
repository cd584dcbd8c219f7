-- ===== src/Fractions/Rounded.antt =====
-- How close `divideWithRounding` of src/utils/math.ts comes to the quotient.
use native.Mathlib.Nat.{mod-add-div', mod-lt}
use coralswap_sdk.Common.{
  ℕ, zero, suc, ◌+◌, ◌*◌, ◌/◌, ◌%◌, ◌≤◌, ◌<◌, ◌≡◌, refl, ap, ◌∙◌, arith, true, false, ok, ◌==◌, ℤ,
  pos, negsuc, minus, magnitude, is_zero, ltb_ℤ, Bool-cases, inl, inr,
}
use coralswap_sdk.Common.Division.{div_floor}
use coralswap_sdk.Fractions.{
  Rounding, round_down, round_half_up, round_up, increment, divide_with_rounding, rounded,
}

-- `m` is `a / k`, rounded: down, to the nearest with halves up, or up.
abbrev pub Rounds : Rounding → (m a k : ℕ) → Type 0
Rounds round_down m a k = (m * k ≤ a) × (a < (m + 1) * k)
Rounds round_half_up m a k = (2 * (m * k) ≤ 2 * a + k) × (2 * a < 2 * (m * k) + k)
Rounds round_up m a k = (a ≤ m * k) × (m * k < a + k)

-- The number of magnitude `m` with the sign of `n`.
abbrev pub with_sign : (n : ℤ) → (m : ℕ) → ℤ
with_sign (pos n) m = pos m
with_sign (negsuc n) m = minus m

parts : (a k : ℕ) → a ≡ a / k * k + a % k
parts a k = omega (arith, mod-add-div' a k)

increment-Rounds :
    (mode : Rounding) (a k : ℕ) → 0 < k → Rounds mode (a / k + increment mode (a % k) k) a k
increment-Rounds round_down a k h =
    let (low, high) = div_floor a k h in (omega (arith, low), omega (arith, high))
increment-Rounds round_half_up a k h = ground (arith, parts a k, mod-lt a h)
increment-Rounds round_up a k h = ground (arith, parts a k, mod-lt a h)

no_increment : (mode : Rounding) (k : ℕ) → 0 < k → increment mode 0 k ≡ 0
no_increment round_down k h = refl
no_increment round_up k h = refl
no_increment round_half_up k h = ground (arith, h)

-- The magnitude of the result.
abbrev rounded_to : Rounding → (a k : ℕ) → ℕ
rounded_to mode a k = a / k + increment mode (a % k) k

exact : (mode : Rounding) (a k : ℕ) → 0 < k → a % k ≡ 0 → a / k ≡ rounded_to mode a k
exact mode a k h e =
    let none : (increment mode (a % k) k ≡ 0) =
      ap (λ r. increment mode r k) e ∙ no_increment mode k h in
    omega (arith, none)

minus_zero_test : (r : ℕ) → is_zero (minus r) ≡ (r == 0)
minus_zero_test zero = refl
minus_zero_test (suc r) = ground arith

magnitude-minus : (r : ℕ) → magnitude (minus r) ≡ r
magnitude-minus zero = refl
magnitude-minus (suc r) = refl

not_negative : (a : ℕ) → ltb_ℤ (pos a) (pos 0) ≡ false
not_negative a = ground arith

is_negative : (a : ℕ) → ltb_ℤ (negsuc a) (pos 0) ≡ true
is_negative a = ground arith

rounded_pos : (a k : ℕ) (mode : Rounding) → rounded (pos a) (pos k) mode ≡ pos (rounded_to mode a k)
rounded_pos a k mode = rw (not_negative a, not_negative k) refl

rounded_negsuc :
    (a k : ℕ) (mode : Rounding)
    → rounded (negsuc a) (pos k) mode ≡ minus (rounded_to mode (suc a) k)
rounded_negsuc a k mode = rw (is_negative a, not_negative k, magnitude-minus (suc a % k)) refl

divide_positive :
    (a k : ℕ) (mode : Rounding)
    → 0 < k
    → divide_with_rounding (pos a) (pos k) mode ≡ ok (pos (rounded_to mode a k))
unfolding divide_with_rounding
divide_positive a k mode h =
    let some_k : ((k == 0) ≡ false) = ground arith in
    elim (Bool-cases (a % k == 0)) [
      | inl e ↦ rw (some_k, e) (ap (λ (m : ℕ). ok (pos m)) (exact mode a k h (ground arith)))
      | inr e ↦ rw (some_k, e) (ap ok (rounded_pos a k mode))
    ]

divide_negative :
    (a k : ℕ) (mode : Rounding)
    → 0 < k
    → divide_with_rounding (negsuc a) (pos k) mode ≡ ok (minus (rounded_to mode (suc a) k))
unfolding divide_with_rounding
divide_negative a k mode h =
    let some_k : ((k == 0) ≡ false) = ground arith in
    elim (Bool-cases (suc a % k == 0)) [
      | inl e ↦
          rw (some_k, minus_zero_test (suc a % k), e)
            (ap (λ (m : ℕ). ok (minus m)) (exact mode (suc a) k h (ground arith)))
      | inr e ↦ rw (some_k, minus_zero_test (suc a % k), e) (ap ok (rounded_negsuc a k mode))
    ]

-- For a positive denominator, the result has the sign of the numerator and the magnitude of the quotient,
-- rounded down, up, or to the nearest whole number with halves away from zero.
pub divide_with_rounding-Rounds :
    (numerator : ℤ) (denominator : ℕ) (mode : Rounding)
    → 0 < denominator
    → (m : ℕ) × (divide_with_rounding numerator (pos denominator) mode ≡ ok (with_sign numerator m))
      × Rounds mode m (magnitude numerator) denominator
divide_with_rounding-Rounds (pos a) k mode h =
    (rounded_to mode a k, divide_positive a k mode h, increment-Rounds mode a k h)
divide_with_rounding-Rounds (negsuc a) k mode h =
    (rounded_to mode (suc a) k, divide_negative a k mode h, increment-Rounds mode (suc a) k h)
