-- ===== src/PairMath/Shares.antt =====
-- LP shares of src/utils/pair-math.ts: `computeMint` and `computeBurn`.
use native.Mathlib.Nat.{mul-le-mul, mul-le-mul_right}
use native.Mathlib.Decide.{dec_le}
use coralswap_sdk.Common.{
  ℕ, ◌+◌, ◌-◌, ◌*◌, ◌/◌, ◌≤◌, ◌<◌, ◌≡◌, ◌⊎◌, inl, inr, arith, ℤ, pos, ok, err,
  insufficient_liquidity, ltb, if◌then◌else◌,
}
use coralswap_sdk.Common.Division.{div_floor, div-le, left_over}
use coralswap_sdk.PairMath.Root.{sqrt_bounds}
use coralswap_sdk.PairMath.{compute_mint, compute_burn}

abbrev minted : ℕ → ℕ → ℕ → ℕ → ℕ → ℕ
minted a b ra rb t = let l = a * t / ra in let m = b * t / rb in if ltb l m then l else m

compute_mint-eq_minted :
    (a b ra rb t : ℕ)
    → 0 < ra
    → 0 < rb
    → 0 < t
    → compute_mint (pos a) (pos b) (pos ra) (pos rb) (pos t) ≡ ok (pos (minted a b ra rb t))
unfolding compute_mint
compute_mint-eq_minted a b ra rb t pa pb pt = ground arith

pub compute_burn-eq_shares :
    (l ra rb t : ℕ)
    → 0 < t
    → compute_burn (pos l) (pos ra) (pos rb) (pos t) ≡ ok (pos (l * ra / t), pos (l * rb / t))
unfolding compute_burn
compute_burn-eq_shares l ra rb t pt = ground arith

-- The smaller of the two quotients is within both deposits' shares.
minted_fair :
    (a b ra rb t : ℕ)
    → 0 < ra
    → 0 < rb
    → (minted a b ra rb t * ra ≤ a * t) × (minted a b ra rb t * rb ≤ b * t)
minted_fair a b ra rb t pa pb = ground (
  arith,
  div_floor (a * t) ra pa,
  div_floor (b * t) rb pb,
  mul-le-mul_right {m = a * t / ra} {n = b * t / rb} rb,
  mul-le-mul_right {m = b * t / rb} {n = a * t / ra} ra,
)

-- Taking out a share that was put in fairly returns no more than was put in.
pub redeem-le : (l a r t : ℕ) → 0 < t → l * r ≤ a * t → l * (r + a) / (t + l) ≤ a
redeem-le l a r t pt h = div-le a (l * (r + a)) (t + l) (omega arith) (omega arith)

-- For a pool with positive reserves and a positive supply `computeMint` returns some amount of shares,
-- and `computeBurn` of those shares, from the reserves and the supply after the deposit, returns of
-- each token at most what was deposited.
pub mint_burn_no_profit :
    (a b ra rb t : ℕ)
    → 0 < ra
    → 0 < rb
    → 0 < t
    → (l x y : ℕ) × (compute_mint (pos a) (pos b) (pos ra) (pos rb) (pos t) ≡ ok (pos l))
      × (compute_burn (pos l) (pos (ra + a)) (pos (rb + b)) (pos (t + l)) ≡ ok (pos x, pos y))
      × (x ≤ a)
      × (y ≤ b)
mint_burn_no_profit a b ra rb t pa pb pt =
    let l = minted a b ra rb t in
    (
      l,
      l * (ra + a) / (t + l),
      l * (rb + b) / (t + l),
      compute_mint-eq_minted a b ra rb t pa pb pt,
      compute_burn-eq_shares l (ra + a) (rb + b) (t + l) (omega arith),
      redeem-le l a ra t pt (minted_fair a b ra rb t pa pb).0,
      redeem-le l b rb t pt (minted_fair a b ra rb t pa pb).1,
    )

-- A share of a reserve: at most the reserve, and what stays backs the other shares at least as well.
share_bounds : (l r t : ℕ) → 0 < t → l ≤ t → (l * r / t ≤ r) × (r * (t - l) ≤ (r - l * r / t) * t)
share_bounds l r t pt h = (le, left_over (l * r / t) l r t le h (div_floor (l * r) t pt).0)
  where
    le : l * r / t ≤ r
    le = div-le r (l * r) t (omega (arith, mul-le-mul_right r h)) pt

-- Burning at most the whole supply, `computeBurn` returns of each token at most its reserve, and the
-- reserve left over, per share left over, is not less than the reserve per share before.
pub compute_burn_solvent :
    (l ra rb t : ℕ)
    → 0 < t
    → l ≤ t
    → (x y : ℕ) × (compute_burn (pos l) (pos ra) (pos rb) (pos t) ≡ ok (pos x, pos y))
      × (x ≤ ra)
      × (y ≤ rb)
      × (ra * (t - l) ≤ (ra - x) * t)
      × (rb * (t - l) ≤ (rb - y) * t)
compute_burn_solvent l ra rb t pt h = (
  l * ra / t,
  l * rb / t,
  compute_burn-eq_shares l ra rb t pt,
  (share_bounds l ra t pt h).0,
  (share_bounds l rb t pt h).0,
  (share_bounds l ra t pt h).1,
  (share_bounds l rb t pt h).1,
)

-- The first deposit of `a` and `b` returns shares `l` such that `l + 1000` is the integer square root
-- of `a * b`, or, where that root is at most 1000, throws `InsufficientLiquidityError`.
pub compute_mint_initial :
    (a b : ℕ) (ra rb : ℤ)
    → ((l : ℕ) × (compute_mint (pos a) (pos b) ra rb (pos 0) ≡ ok (pos l))
        × (0 < l)
        × ((l + 1000) * (l + 1000) ≤ a * b)
        × (a * b < (l + 1001) * (l + 1001)))
      ⊎ ((compute_mint (pos a) (pos b) ra rb (pos 0) ≡ err insufficient_liquidity)
          × (a * b < 1001 * 1001))
unfolding compute_mint
compute_mint_initial a b ra rb =
    let (s, e, low, high) = sqrt_bounds (a * b) in
    elim (dec_le s 1000) [
      | yes small ↦ inr (
        ground (arith, e),
        omega (
          arith,
          mul-le-mul {n₁ = s + 1} {m₁ = s + 1} {n₂ = 1001} {m₂ = 1001} (omega arith) (omega arith),
        ),
      )
      | no large ↦
          let back : s - 1000 + 1000 ≡ s = omega arith in
          let next : s - 1000 + 1001 ≡ s + 1 = omega arith in
          inl (s - 1000, ground (arith, e), omega arith, rw back low, rw next high)
    ]
