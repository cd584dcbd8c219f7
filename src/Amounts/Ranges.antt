-- ===== src/Amounts/Ranges.antt =====
-- The ranges of the arithmetic of src/utils/amounts.ts, and how its slippage compares to that of a quote.
use coralswap_sdk.Common.{
  ℕ, zero, suc, ◌+◌, ◌-◌, ◌*◌, ◌/◌, ◌^◌, ◌≤◌, ◌<◌, ◌≡◌, ◌⊎◌, inl, inr, ap, arith, true, false, ◌||◌,
  Bool-cases, ok, err, validation, ℤ, pos, negsuc, minus, magnitude, ◌*ℤ◌, is_zero, ltb_ℤ,
  sub_ℕ-eq_pos,
}
use coralswap_sdk.Common.Division.{div_floor, div-le}
use coralswap_sdk.Swap.Quote.{less_slippage, plus_slippage}
use coralswap_sdk.Amounts.{get_slippage_tolerance, i128_max, i128_min, safe_mul}

below : (s : ℕ) → s ≤ 10000 → (ltb_ℤ (pos s) (pos 0) || ltb_ℤ (pos 10000) (pos s)) ≡ false
below s h = ground arith

-- The kept share of a slippage, and what the subtraction of the lost share leaves.
shares :
    (a s : ℕ)
    → s ≤ 10000
    → (a * s / 10000 ≤ a)
      × (a * (10000 - s) / 10000 ≤ a - a * s / 10000)
      × (a - a * s / 10000 ≤ a * (10000 - s) / 10000 + 1)
shares a s h =
    let (l1, h1) = div_floor (a * s) 10000 (omega arith) in
    let (l2, h2) = div_floor (a * (10000 - s)) 10000 (omega arith) in
    let total : s + (10000 - s) ≡ 10000 = omega arith in
    let split = ap (λ (k : ℕ). a * k) total in
    let few : a * s / 10000 ≤ a = div-le a (a * s) 10000 (omega (arith, split)) (omega arith) in
    (few, omega (arith, split), omega (arith, split))

added_share : (a s : ℕ) → a * (10000 + s) / 10000 ≡ a + a * s / 10000
added_share a s =
    let (l1, h1) = div_floor (a * s) 10000 (omega arith) in
    let (l2, h2) = div_floor (a * (10000 + s)) 10000 (omega arith) in omega (arith, l1, h1, l2, h2)

least_output :
    (a s : ℕ)
    → s ≤ 10000
    → get_slippage_tolerance (pos a) (pos s) false ≡ ok (pos (a * (10000 - s) / 10000))
unfolding get_slippage_tolerance
least_output a s h = rw (below s h, sub_ℕ-eq_pos 10000 s h)

largest_input :
    (a s : ℕ)
    → s ≤ 10000
    → get_slippage_tolerance (pos a) (pos s) true ≡ ok (pos (a + a * s / 10000))
unfolding get_slippage_tolerance
largest_input a s h = rw (below s h, added_share a s)

-- Between 0 and 10000 basis points, the least output that `getSlippageTolerance` accepts is the one that a
-- quote promises or one less, and its largest input is the one of a quote.
pub get_slippage_tolerance-less_slippage :
    (a s : ℕ)
    → s ≤ 10000
    → ((low : ℕ) × (quoted : ℕ) × (get_slippage_tolerance (pos a) (pos s) false ≡ ok (pos low))
        × (less_slippage (pos a) (pos s) ≡ pos quoted)
        × (low ≤ quoted)
        × (quoted ≤ low + 1))
      × (get_slippage_tolerance (pos a) (pos s) true ≡ ok (plus_slippage (pos a) (pos s)))
unfolding get_slippage_tolerance less_slippage plus_slippage
get_slippage_tolerance-less_slippage a s h =
    let (few, low, high) = shares a s h in
    ((_, _, least_output a s h, sub_ℕ-eq_pos a (a * s / 10000) few, low, high), largest_input a s h)

fits-cases :
    (r : ℤ)
    → (((ltb_ℤ i128_max r || ltb_ℤ r i128_min) ≡ false) × (magnitude r ≤ 2 ^ 127 - 1))
      ⊎ (((ltb_ℤ i128_max r || ltb_ℤ r i128_min) ≡ true) × (2 ^ 127 - 1 < magnitude r))
fits-cases r = ground arith

zero_product : (a b : ℤ) → (is_zero a || is_zero b) ≡ true → a *ℤ b ≡ pos 0
zero_product (pos zero) (pos b) h = ap pos (omega arith)
zero_product (pos (suc a)) (pos zero) h = ap pos (omega arith)
zero_product (pos (suc a)) (pos (suc b)) h = absurd (ground arith)
zero_product (pos zero) (negsuc b) h = let none : zero * suc b ≡ 0 = omega arith in ap minus none
zero_product (pos (suc a)) (negsuc b) h = absurd (ground arith)
zero_product (negsuc a) (pos zero) h = let none : suc a * zero ≡ 0 = omega arith in ap minus none
zero_product (negsuc a) (pos (suc b)) h = absurd (ground arith)
zero_product (negsuc a) (negsuc b) h = cc

-- `safeMul` returns the product exactly where it is at least -(2^127 - 1) and at most 2^127 - 1, and throws a
-- `ValidationError` everywhere else.
pub safe_mul_range :
    (a b : ℤ)
    → ((magnitude (a *ℤ b) ≤ 2 ^ 127 - 1) × (safe_mul a b ≡ ok (a *ℤ b)))
      ⊎ ((2 ^ 127 - 1 < magnitude (a *ℤ b)) × (safe_mul a b ≡ err validation))
unfolding safe_mul
safe_mul_range a b = elim (Bool-cases (is_zero a || is_zero b)) [
  | inl zero_one ↦
      let none_left = zero_product a b zero_one in
      inl (rw none_left (omega arith), rw (zero_one, none_left))
  | inr none_zero ↦ elim (fits-cases (a *ℤ b)) [
    | inl (fits, small) ↦ inl (small, rw (none_zero, fits))
    | inr (over, large) ↦ inr (large, rw (none_zero, over))
  ]
]
