-- ===== src/PairMath/Pricing.antt =====
-- The swap formulas of src/utils/pair-math.ts: `getAmountOut` and `getAmountIn`.
use native.Mathlib.Nat.{mul-le-mul_right, mul-le-mul_left, mul-pos}
use mathlib.Core.Path.{subst}
use coralswap_sdk.Common.{
  ℕ, zero, suc, ◌+◌, ◌-◌, ◌*◌, ◌/◌, ◌≤◌, ◌<◌, ◌≡◌, ap, sym, arith, ℤ, pos, ok, sub_ℕ-eq_pos,
}
use coralswap_sdk.Common.Division.{div_floor, le-div, div-lt, div-le}
use coralswap_sdk.PairMath.{get_amount_out, get_amount_in}

-- The formula on non-negative numbers, with the fee factor `g = 10000 - fee`.
abbrev pub out_of : ℕ → ℕ → ℕ → ℕ → ℕ
out_of a r s g = a * g * s / (r * 10000 + a * g)

abbrev pub in_of : ℕ → ℕ → ℕ → ℕ → ℕ
in_of o r s g = r * o * 10000 / ((s - o) * g) + 1

-- On positive amounts and reserves, with a fee of at most 100%, the code computes the formula.
pub get_amount_out-eq_out_of :
    (a r s f : ℕ)
    → 0 < a
    → 0 < r
    → 0 < s
    → f ≤ 10000
    → get_amount_out (pos a) (pos r) (pos s) (pos f) ≡ ok (pos (out_of a r s (10000 - f)))
unfolding get_amount_out
get_amount_out-eq_out_of a r s f pa pr ps hf = rw (sub_ℕ-eq_pos 10000 f hf) (ground arith)

pub get_amount_in-eq_in_of :
    (o r s f : ℕ)
    → 0 < o
    → 0 < r
    → o < s
    → f < 10000
    → get_amount_in (pos o) (pos r) (pos s) (pos f) ≡ ok (pos (in_of o r s (10000 - f)))
unfolding get_amount_in
get_amount_in-eq_in_of o r s f pa pr ps hf =
    rw (sub_ℕ-eq_pos 10000 f (omega arith), sub_ℕ-eq_pos s o (omega arith))
      (ground (arith, mul-pos {m = s - o} {n = 10000 - f} (omega arith) (omega arith)))

-- The output stays below the reserve that it is paid from.
pub out_of-lt : (a r s g : ℕ) → 0 < r → 0 < s → out_of a r s g < s
out_of-lt a r s g pr ps =
    div-lt s (a * g * s) (r * 10000 + a * g) (omega arith)
      (omega (arith, mul-pos {m = r} {n = s} pr ps))

-- Paying `o` from a reserve that keeps `d`: what the formula's rounding guarantees.
out_of_pays : (a r d o g : ℕ) → 0 < r → g ≤ 10000 → o ≡ out_of a r (d + o) g → r * o ≤ a * d
out_of_pays a r d o g pr hg e = omega (
  arith,
  (div_floor (a * g * (d + o)) (r * 10000 + a * g) (omega arith)).0,
  ap (λ (t : ℕ). t * (r * 10000 + a * g)) e,
  mul-le-mul_left {m = g} {n = 10000} (a * d) hg,
)

scale_up : (o d x x' k : ℕ) → o * (k + x) ≤ x * (d + o) → x ≤ x' → o * (k + x') ≤ x' * (d + o)
scale_up o d x x' k h le = omega (arith, mul-le-mul_right d le)

-- A larger input never gives a smaller output.
pub out_of_mono : (a a' r s g : ℕ) → 0 < r → 0 < s → a ≤ a' → out_of a r s g ≤ out_of a' r s g
out_of_mono a a' r s g pr ps h = le-div o (a' * g * s) (r * 10000 + a' * g) (omega arith) (
    rw parts at
      (scale_up o (s - o) (a * g) (a' * g) (r * 10000) (rw parts paid) (mul-le-mul_right g h)))
  where
    o : ℕ
    o = out_of a r s g

    parts : s - o + o ≡ s
    parts = omega (arith, out_of-lt a r s g pr ps)

    paid : o * (r * 10000 + a * g) ≤ a * g * s
    paid = (div_floor (a * g * s) (r * 10000 + a * g) (omega arith)).0

pub in_of_covers :
    (o r d g : ℕ) → 0 < r → 0 < d → 0 < g → o ≤ out_of (in_of o r (d + o) g) r (d + o) g
in_of_covers o r d g pr pd pg =
    let i = r * o * 10000 / (d * g) + 1 in
    let keep : d + o - o ≡ d = omega arith in
    rw keep (
      le-div o (i * g * (d + o)) (r * 10000 + i * g) (omega arith)
        (omega (arith, (div_floor (r * o * 10000) (d * g) (mul-pos pd pg)).1)))

in_of-least :
    (o r d g a : ℕ) → 0 < r → 0 < d → 0 < g → o ≤ out_of a r (d + o) g → in_of o r (d + o) g ≤ a + 1
in_of-least o r d g a pr pd pg h =
    let keep : d + o - o ≡ d = omega arith in
    rw keep (
      omega (
        arith,
        div-le a (r * o * 10000) (d * g)
            (omega (
              arith,
              (div_floor (a * g * (d + o)) (r * 10000 + a * g) (omega arith)).0,
              mul-le-mul_right (r * 10000 + a * g) h,
            ))
            (mul-pos pd pg),
      ))

-- For a positive input, positive reserves and a fee of at most 100%, `getAmountOut` returns an amount
-- that is less than the output reserve, and after the trade the product of the reserves is not less
-- than before.
pub get_amount_out_safe :
    (a r s f : ℕ)
    → 0 < a
    → 0 < r
    → 0 < s
    → f ≤ 10000
    → (o : ℕ) × (get_amount_out (pos a) (pos r) (pos s) (pos f) ≡ ok (pos o))
      × (o < s)
      × (r * s ≤ (r + a) * (s - o))
get_amount_out_safe a r s f pa pr ps hf =
    let g = 10000 - f in
    let o = out_of a r s g in
    let below : o < s = out_of-lt a r s g pr ps in
    let parts : s - o + o ≡ s = omega arith in
    let pays : r * o ≤ a * (s - o) =
      out_of_pays a r (s - o) o g pr (omega arith) (ap (λ t. out_of a r t g) (sym parts)) in
    (
      o,
      get_amount_out-eq_out_of a r s f pa pr ps hf,
      below,
      omega (arith, pays, ap (λ (t : ℕ). r * t) parts),
    )

pub get_amount_out-positive :
    (a r s : ℕ) (fee : ℤ) {o : ℤ}
    → get_amount_out (pos a) (pos r) (pos s) fee ≡ ok o
    → (0 < a) × (0 < r) × (0 < s)
unfolding get_amount_out
get_amount_out-positive zero r s fee e = ground arith
get_amount_out-positive (suc a) zero s fee e = ground arith
get_amount_out-positive (suc a) (suc r) zero fee e = ground arith
get_amount_out-positive (suc a) (suc r) (suc s) fee e = omega arith

abbrev Covers : ℕ → ℕ → ℕ → ℕ → Type 0
Covers o r s f =
    (i x : ℕ) × (get_amount_in (pos o) (pos r) (pos s) (pos f) ≡ ok (pos i))
    × (get_amount_out (pos i) (pos r) (pos s) (pos f) ≡ ok (pos x))
    × (o ≤ x)
    × ((a y : ℕ) → get_amount_out (pos a) (pos r) (pos s) (pos f) ≡ ok (pos y) → o ≤ y → i ≤ a + 1)

Covers-from : (o r d f : ℕ) → 0 < o → 0 < r → 0 < d → f < 10000 → Covers o r (d + o) f
Covers-from o r d f po pr pd hf = (
  in_of o r (d + o) g,
  out_of (in_of o r (d + o) g) r (d + o) g,
  get_amount_in-eq_in_of o r (d + o) f po pr (omega arith) hf,
  get_amount_out-eq_out_of (in_of o r (d + o) g) r (d + o) f (omega arith) pr (omega arith)
      (omega arith),
  in_of_covers o r d g pr pd (omega arith),
  least,
)
  where
    g : ℕ
    g = 10000 - f

    least :
        (a y : ℕ)
        → get_amount_out (pos a) (pos r) (pos (d + o)) (pos f) ≡ ok (pos y)
        → o ≤ y
        → in_of o r (d + o) g ≤ a + 1
    least a y e h =
        let pa : 0 < a = (get_amount_out-positive a r (d + o) (pos f) e).0 in
        let same : y ≡ out_of a r (d + o) g =
          cc (e, get_amount_out-eq_out_of a r (d + o) f pa pr (omega arith) (omega arith)) in
        in_of-least o r d g a pr pd (omega arith) (omega (arith, h, same))

-- For a positive output below the output reserve and a fee under 100%, `getAmountIn` returns an input
-- for which `getAmountOut` on the same reserves returns at least that output; and any input for which
-- `getAmountOut` returns at least that output is at least the returned one less 1.
pub get_amount_in_covers :
    (o r s f : ℕ)
    → 0 < o
    → 0 < r
    → o < s
    → f < 10000
    → (i x : ℕ) × (get_amount_in (pos o) (pos r) (pos s) (pos f) ≡ ok (pos i))
      × (get_amount_out (pos i) (pos r) (pos s) (pos f) ≡ ok (pos x))
      × (o ≤ x)
      × ((a y : ℕ)
          → get_amount_out (pos a) (pos r) (pos s) (pos f) ≡ ok (pos y)
          → o ≤ y
          → i ≤ a + 1)
get_amount_in_covers o r s f po pr ps hf =
    let parts : s - o + o ≡ s = omega arith in
    subst (λ t. Covers o r t f) parts (Covers-from o r (s - o) f po pr (omega arith) hf)

-- With a fee of at most 100%, of two inputs on the same reserves for which `getAmountOut` returns, the
-- larger one does not get the smaller output.
pub get_amount_out_mono :
    (a a' r s f : ℕ) {x y : ℕ}
    → f ≤ 10000
    → a ≤ a'
    → get_amount_out (pos a) (pos r) (pos s) (pos f) ≡ ok (pos x)
    → get_amount_out (pos a') (pos r) (pos s) (pos f) ≡ ok (pos y)
    → x ≤ y
get_amount_out_mono a a' r s f {x} {y} hf h ex ey =
    let (pa, pr, ps) = get_amount_out-positive a r s (pos f) ex in
    let first : x ≡ out_of a r s (10000 - f) =
      cc (ex, get_amount_out-eq_out_of a r s f pa pr ps hf) in
    let second : y ≡ out_of a' r s (10000 - f) =
      cc (ey, get_amount_out-eq_out_of a' r s f (omega arith) pr ps hf) in
    rw (first, second) (out_of_mono a a' r s (10000 - f) pr ps h)
