-- ===== src/PairMath/Root.antt =====
-- The integer square root of src/utils/pair-math.ts.
use mathlib.Core.WellFounded.{Acc}
use native.Mathlib.Decide.{dec_lt}
use mathlib.Core.Logic.{dif_pos, dif_neg}
use native.Mathlib.Bridge.{le_prop}
use native.Mathlib.Nat.{mul-le-mul, mul-le-mul_right, div_self}
use coralswap_sdk.Common.{ℕ, zero, suc, ◌+◌, ◌*◌, ◌/◌, ◌≤◌, ◌<◌, ◌≡◌, refl, arith, pos, ok}
use coralswap_sdk.Common.Division.{div_floor, am_gm}
use coralswap_sdk.Common.Order.{lt_wf}
use coralswap_sdk.PairMath.{sqrt, sqrt_from, sqrt_loop}

-- One Newton step from any positive `x` stays above the root.
step_above : (n x : ℕ) → 0 < x → n < ((x + n / x) / 2 + 1) * ((x + n / x) / 2 + 1)
step_above n x h = omega (arith, div_floor n x h, am_gm x (n / x + 1), mul-le-mul le le)
  where
    le : x + (n / x + 1) ≤ 2 * ((x + n / x) / 2 + 1)
    le = omega arith

-- A positive number has a positive root.
step_pos : (n y : ℕ) → 0 < n → n < (y + 1) * (y + 1) → 0 < y
step_pos n zero p h = absurd (omega arith)
step_pos n (suc y) p h = omega arith

-- Where the step does not fall, `x` is the root.
stop_below : (n x : ℕ) → 0 < x → x ≤ (x + n / x) / 2 → x * x ≤ n
stop_below n x p h =
    omega (arith, div_floor n x p, mul-le-mul_right {m = x} {n = n / x} x (omega arith))

abbrev IsRoot : ℕ → ℕ → Type 0
IsRoot n s = (s * s ≤ n) × (n < (s + 1) * (s + 1))

-- The loop's result is the root, from any start that is not below it.
sqrt_loop_bounds :
    (n x : ℕ) (w : Acc ◌<◌ x)
    → 0 < n
    → 0 < x
    → n < (x + 1) * (x + 1)
    → IsRoot n (sqrt_loop n x ((x + n / x) / 2) w)
unfolding sqrt_loop
sqrt_loop_bounds n x (Acc.intro _ smaller) pn px above = elim (dec_lt ((x + n / x) / 2) x) [
  | yes p ↦ rw (dif_pos _ le_prop p) (
      sqrt_loop_bounds n ((x + n / x) / 2) (smaller _ p) pn (step_pos n _ pn (step_above n x px))
        (step_above n x px))
  | no p ↦ rw (dif_neg _ p) (stop_below n x px (omega arith), above)
]

start_bounds : (n : ℕ) → 0 < n → IsRoot n (sqrt_loop n n ((n + 1) / 2) (lt_wf.apply n))
start_bounds n p =
    let start : (n + 1) / 2 ≡ (n + n / n) / 2 = rw (div_self p) in
    rw start (sqrt_loop_bounds n n (lt_wf.apply n) p p (omega arith))

sqrt_from_bounds : (n : ℕ) → 0 < n → IsRoot n (sqrt_from n)
unfolding sqrt_from
sqrt_from_bounds n p = start_bounds n p

-- `sqrt` returns on every non-negative number `n`, and its result is the largest whole number whose
-- square is at most `n`.
pub sqrt_bounds :
    (n : ℕ) → (s : ℕ) × (sqrt (pos n) ≡ ok (pos s)) × (s * s ≤ n) × (n < (s + 1) * (s + 1))
unfolding sqrt
sqrt_bounds zero = (0, refl, omega arith, omega arith)
sqrt_bounds (suc n) =
    let h = sqrt_from_bounds (suc n) (omega arith) in (sqrt_from (suc n), ground arith, h.0, h.1)
