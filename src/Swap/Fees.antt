-- ===== src/Swap/Fees.antt =====
-- The compounded fee of src/modules/swap.ts, `computeCompoundedFeeBps`.
use native.Mathlib.Nat.{mul-le-mul_right, mul-le-mul_left}
use mathlib.Core.List.{foldl}
use coralswap_sdk.Common.{
  ℕ, ◌+◌, ◌-◌, ◌*◌, ◌/◌, ◌≤◌, ◌≡◌, refl, ap, ◌∙◌, arith, pos, List, [], ◌∷◌, map, length, All,
  sub_ℕ-eq_pos, quot, ◌*ℤ◌, ◌-ℤ◌,
}
use coralswap_sdk.Common.Division.{div_floor, div-le}
use coralswap_sdk.Swap.Quote.{retain_after_fee, compute_compounded_fee_bps}

abbrev pub sum : List ℕ → ℕ
sum [] = 0
sum (f ∷ fees) = f + sum fees

-- One hop keeps `q` of `rem`: no more than the part that its fee leaves, and all but the fee and 1.
one_hop :
    (rem f : ℕ)
    → rem ≤ 10000
    → f ≤ 10000
    → let q = rem * (10000 - f) / 10000 in (q ≤ rem) × (q + f ≤ 10000) × (rem ≤ q + f + 1)
one_hop rem f hr hf = (
  div-le rem (rem * g) 10000 (omega (arith, mul-le-mul_left {m = g} {n = 10000} rem (omega arith)))
      (omega arith),
  omega (
    arith,
    div-le g (rem * g) 10000 (omega (arith, mul-le-mul_right {m = rem} {n = 10000} g hr))
        (omega arith),
  ),
  omega (
    arith,
    (div_floor (rem * g) 10000 (omega arith)).1,
    mul-le-mul_right {m = rem} {n = 10000} f hr,
    ap (λ (t : ℕ). rem * t) parts,
  ),
)
  where
    g : ℕ
    g = 10000 - f

    parts : 10000 - f + f ≡ 10000
    parts = omega arith

abbrev Kept : ℕ → List ℕ → ℕ → Type 0
Kept rem fees k =
    (foldl retain_after_fee (pos rem) (map pos fees) ≡ pos k)
    × (k ≤ rem)
    × All (λ f. f ≤ 10000 - k) fees
    × (rem ≤ k + sum fees + length fees)

loop-Kept :
    (rem : ℕ) (fees : List ℕ) → rem ≤ 10000 → All (λ f. f ≤ 10000) fees → (k : ℕ) × Kept rem fees k
loop-Kept rem [] hr a = (rem, (refl, omega arith, tt, omega arith))
loop-Kept rem (f ∷ fees) hr a =
    let (less, fee, most) = one_hop rem f hr a.0 in
    let q = rem * (10000 - f) / 10000 in
    let (k, kept) = loop-Kept q fees (omega arith) a.1 in
    let (same, below, each, total) = kept in
    let step : retain_after_fee (pos rem) (pos f) ≡ pos q =
      ap (λ g. quot (pos rem *ℤ g) (pos 10000)) (sub_ℕ-eq_pos 10000 f a.0) in
    (
      k,
      (
        ap (λ v. foldl retain_after_fee v (map pos fees)) step ∙ same,
        omega arith,
        (omega arith, each),
        omega arith,
      ),
    )

-- For fees of at most 100% each, the compounded fee is at most 100%, at least each single fee, and
-- above their sum by at most 1 basis point for each hop.
pub compute_compounded_fee_bps_bounds :
    (fees : List ℕ)
    → All (λ f. f ≤ 10000) fees
    → (n : ℕ) × (compute_compounded_fee_bps (map pos fees) ≡ pos n)
      × (n ≤ 10000)
      × All (λ f. f ≤ n) fees
      × (n ≤ sum fees + length fees)
unfolding compute_compounded_fee_bps
compute_compounded_fee_bps_bounds fees a =
    let (k, kept) = loop-Kept 10000 fees (omega arith) a in
    let (same, below, each, total) = kept in
    (
      10000 - k,
      ap (λ v. pos 10000 -ℤ v) same ∙ sub_ℕ-eq_pos 10000 k below,
      omega arith,
      each,
      omega arith,
    )
