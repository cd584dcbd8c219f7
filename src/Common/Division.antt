-- ===== src/Common/Division.antt =====
-- Floor division of products: what the pricing formulas need of it.
use Prim.Native.Nat.{ℕ, ◌-◌, ◌+◌, ◌-◌, ◌*◌, ◌/◌, ◌≤◌, ◌<◌}
use mathlib.Core.Path.{◌≡◌, sym, subst, ap}
use native.Mathlib.Decide.{dec_le}
use native.Mathlib.Omega.{arith}
use native.Mathlib.Nat.{div-mul-le_self, lt-div-mul-add, le-div_iff_mul-le, div-lt_iff_lt-mul}

-- `q = a / b` is the whole number with `q * b ≤ a < (q + 1) * b`.
pub div_floor : (a b : ℕ) → 0 < b → (a / b * b ≤ a) × (a < (a / b + 1) * b)
div_floor a b h = (div-mul-le_self a b, omega (arith, lt-div-mul-add {a = a} {b = b} h))

-- A quotient is at least `q` as soon as the dividend is at least `q * b`.
pub le-div : (q a b : ℕ) → 0 < b → q * b ≤ a → q ≤ a / b
le-div q a b h k = (le-div_iff_mul-le h).1 k

-- A quotient is below `q` as soon as the dividend is below `q * b`.
pub div-lt : (q a b : ℕ) → 0 < b → a < q * b → a / b < q
div-lt q a b h k = (div-lt_iff_lt-mul h).1 k

pub div-le : (q a b : ℕ) → a ≤ q * b → 0 < b → a / b ≤ q
div-le q a b k h = omega (arith, div-lt (q + 1) a b h (omega arith))

pub div_mono : (a a' b : ℕ) → 0 < b → a ≤ a' → a / b ≤ a' / b
div_mono a a' b p h = le-div (a / b) a' b p (omega (arith, div_floor a b p))

pub times_mono : (a b k : ℕ) → a ≤ b → a * k ≤ b * k
times_mono a b k h = grind arith

am_gm_from : (b d : ℕ) → 4 * ((b + d) * b) ≤ (b + d + b) * (b + d + b)
am_gm_from b d = omega arith

-- `4 a b ≤ (a + b)²`
pub am_gm : (a b : ℕ) → 4 * (a * b) ≤ (a + b) * (a + b)
am_gm a b = elim (dec_le b a) [
  | yes h ↦
      let e : a ≡ b + (a - b) = omega arith in
      subst (λ t. 4 * (t * b) ≤ (t + b) * (t + b)) (sym e) (am_gm_from b (a - b))
  | no h ↦
      let e : b ≡ a + (b - a) = omega arith in
      subst (λ t. 4 * (a * t) ≤ (a + t) * (a + t)) (sym e) (omega (arith, am_gm_from a (b - a)))
]

-- A product that is strictly smaller than a square has a smaller root.
pub square-lt : (a b : ℕ) → a * a < b * b → a < b
square-lt a b h = grind arith

-- Taking out at most its share leaves the rest its share.
pub left_over : (x l r t : ℕ) → x ≤ r → l ≤ t → x * t ≤ l * r → r * (t - l) ≤ (r - x) * t
left_over x l r t hx hl h =
    let kept : t - l + l ≡ t = omega arith in
    let rest : r - x + x ≡ r = omega arith in
    omega (arith, h, ap (λ (v : ℕ). r * v) kept, ap (λ (v : ℕ). v * t) rest)
