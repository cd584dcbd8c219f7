-- ===== src/Fractions/Field.antt =====
-- The operations of `Fraction` in src/utils/math.ts: the denominators stay positive, and the values are right.
use coralswap_sdk.Common.{
  ℕ, zero, suc, ◌*◌, ◌<◌, ◌≡◌, ◌≢◌, refl, sym, ap, ◌∙◌, arith, true, false, Result, ok, ◌>>=◌, ℤ,
  pos, negsuc, neg, minus, pos_part, err, plain, if◌then◌else◌, ◌*ℤ◌, leb_ℤ, ltb_ℤ,
}
use coralswap_sdk.Fractions.{Fraction, new_fraction, fraction, invert, multiply, divide_by}

-- A fraction with a positive denominator.
abbrev pub frac : ℤ → ℕ → Fraction
frac n d = record { numerator = n; denominator = pos d }

made : (n : ℤ) (d : ℕ) → new_fraction n (pos (suc d)) ≡ ok (frac n (suc d))
unfolding new_fraction
made n d = let e : (leb_ℤ (pos (suc d)) (pos 0) ≡ false) = ground arith in rw e refl

not_made : (n : ℤ) → new_fraction n (pos 0) ≡ err plain
unfolding new_fraction
not_made n = refl

is_negative : (a : ℕ) → ltb_ℤ (negsuc a) (pos 0) ≡ true
is_negative a = ground arith

not_negative : (a : ℕ) → ltb_ℤ (pos a) (pos 0) ≡ false
not_negative a = ground arith

invert_positive : (a d : ℕ) → invert (frac (pos (suc a)) d) ≡ ok (frac (pos d) (suc a))
unfolding invert
invert_positive a d = rw (not_negative (suc a)) (made (pos d) a)

invert_negative : (a d : ℕ) → invert (frac (negsuc a) d) ≡ ok (frac (minus d) (suc a))
unfolding invert
invert_negative a d = rw (is_negative a) (made (minus d) a)

invert_zero : (d : ℕ) → invert (frac (pos 0) d) ≡ err plain
unfolding invert
invert_zero d = not_made (pos d)

-- The inverse of a fraction that is not zero has a positive denominator, is its inverse, and has the fraction
-- as its own inverse, term by term; zero has none: `invert` throws.
pub invert_twice :
    (n : ℤ) (d : ℕ)
    → (n ≡ pos 0 → invert (frac n (suc d)) ≡ err plain)
      × (n ≢ pos 0
          → (m : ℤ) × (k : ℕ) × (invert (frac n (suc d)) ≡ ok (frac m (suc k)))
            × (m *ℤ n ≡ pos (suc k) *ℤ pos (suc d))
            × (invert (frac m (suc k)) ≡ ok (frac n (suc d))))
invert_twice (pos zero) d = (λ e. invert_zero (suc d), λ h. absurd (h refl))
invert_twice (pos (suc a)) d = (
  λ e. absurd (omega (arith, ap pos_part e)),
  λ h. (pos (suc d), a, invert_positive a (suc d), ap pos (omega arith), invert_positive d (suc a)),
)
invert_twice (negsuc a) d = (
  λ e. cc,
  λ h. (negsuc d, a, invert_negative a (suc d), ap pos (omega arith), invert_negative d (suc a)),
)

neg-minus : (n : ℕ) → neg (minus n) ≡ pos n
neg-minus zero = refl
neg-minus (suc n) = refl

minus_zero : (n : ℕ) → n ≡ 0 → pos n ≡ minus n
minus_zero zero h = refl
minus_zero (suc n) h = absurd (omega (arith, h))

*ℤ_neg : (a b : ℤ) → a *ℤ neg b ≡ neg (a *ℤ b)
*ℤ_neg (pos a) (pos zero) = minus_zero (a * 0) (omega arith)
*ℤ_neg (pos a) (pos (suc b)) = refl
*ℤ_neg (pos a) (negsuc b) = sym (neg-minus (a * suc b))
*ℤ_neg (negsuc a) (pos zero) =
    sym (minus_zero (suc a * 0) (omega arith)) ∙ sym (neg-minus (suc a * 0))
*ℤ_neg (negsuc a) (pos (suc b)) = sym (neg-minus (suc a * suc b))
*ℤ_neg (negsuc a) (negsuc b) = refl

below_zero :
    (x : ℤ) (p : ℕ)
    → 0 < p
    → (if ltb_ℤ (minus p) (pos 0)
        then new_fraction (neg x) (neg (minus p))
        else new_fraction x (minus p))
      ≡ new_fraction (neg x) (pos p)
below_zero x zero h = elim h [ ]
below_zero x (suc p) h = rw (is_negative p) refl

-- To divide by a fraction is to multiply by its inverse, term by term and in what is thrown.
pub divide_by-invert :
    (m n : ℤ) (c e : ℕ)
    → divide_by (frac m (suc c)) (fraction (frac n (suc e)))
      ≡ (invert (frac n (suc e)) >>= λ inverse. multiply (frac m (suc c)) (fraction inverse))
unfolding divide_by multiply
divide_by-invert m (pos zero) c e =
    let none : (suc c * 0 ≡ 0) = omega arith in
    rw (none, invert_zero (suc e)) (not_made (m *ℤ pos (suc e)))
divide_by-invert m (pos (suc b)) c e =
    rw (not_negative (suc c * suc b), invert_positive b (suc e)) refl
divide_by-invert m (negsuc b) c e =
    below_zero (m *ℤ pos (suc e)) (suc c * suc b) (omega arith)
    ∙ ap (λ (x : ℤ). new_fraction x (pos (suc c * suc b))) (sym (*ℤ_neg m (pos (suc e))))
    ∙ ap (λ (r : Result Fraction). r >>= λ inverse. multiply (frac m (suc c)) (fraction inverse))
        (sym (invert_negative b (suc e)))
