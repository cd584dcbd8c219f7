-- ===== src/Conservation/Exact.antt =====
-- What src/contracts/reserve-conservation.ts accepts, without its rounding.
use native.Mathlib.Decide.{dec_le}
use mathlib.Core.Path.{subst}
use coralswap_sdk.Common.{
  ℕ, ◌+◌, ◌-◌, ◌*◌, ◌/◌, ◌≤◌, ◌≡◌, ◌↔◌, ap, sym, arith, true, ok, Option, ℤ, pos, leb_ℤ,
}
use coralswap_sdk.Common.Division.{div_floor, le-div}
use coralswap_sdk.Conservation.{
  Loan, ReserveConservationResult, tolerance_of, least_k, judge, verify_reserve_conservation,
}

more : (k t : ℕ) → 10000 ≤ t → k * 10000 ≤ k * t
more k t h = grind arith

least_k-sub : (kb t : ℕ) → least_k (pos kb) (pos t) ≡ pos (kb - kb * t / 10000)
least_k-sub kb t = ground arith

least_exact : (kb ka t : ℕ) → (kb - kb * t / 10000 ≤ ka) ↔ (kb * (10000 - t) ≤ ka * 10000)
least_exact kb ka t = elim (dec_le t 10000) [
  | yes small ↦
      let total : t + (10000 - t) ≡ 10000 = omega arith in
      let split = ap (λ (k : ℕ). kb * k) total in
      let (low, high) = div_floor (kb * t) 10000 (omega arith) in
      (λ h. omega (arith, split, low, high, h), λ h. omega (arith, split, low, high, h))
  | no large ↦
      let nothing : 10000 - t ≡ 0 = omega arith in
      let none_left = ap (λ (k : ℕ). kb * k) nothing in
      let all : kb ≤ kb * t / 10000 =
        le-div kb (kb * t) 10000 (omega arith) (more kb t (omega arith)) in
      (λ h. omega (arith, none_left), λ h. omega (arith, all))
]

judge_exact :
    (kb ka t : ℕ)
    → ((judge (pos kb) (pos ka) (pos t)).is_ok ≡ true) ↔ (kb * (10000 - t) ≤ ka * 10000)
judge_exact kb ka t =
    subst (λ m. (leb_ℤ m (pos ka) ≡ true) ↔ (kb * (10000 - t) ≤ ka * 10000))
      (sym (least_k-sub kb t))
      (
        λ h. (least_exact kb ka t).0 (ground arith),
        λ h. let enough = (least_exact kb ka t).1 h in ground arith,
      )

-- With the reserves and the tolerance at least zero, the check succeeds exactly where the product of the
-- reserves kept its share: `kBefore * (10000 - tolerance) <= kAfter * 10000`, whatever the rounding, and
-- always where the tolerance is 10000 or more.
pub verify_reserve_conservation_exact :
    (a b c d t : ℕ) (loan : Loan) (tolerance : Option ℤ)
    → loan.reserves_before ≡ ok (record { reserve0 = pos a; reserve1 = pos b })
    → loan.borrower_callback ≡ ok tt
    → loan.reserves_after ≡ ok (record { reserve0 = pos c; reserve1 = pos d })
    → tolerance_of tolerance loan ≡ ok (pos t)
    → (r : ReserveConservationResult) × (verify_reserve_conservation loan tolerance ≡ ok r)
      × ((r.is_ok ≡ true) ↔ (a * b * (10000 - t) ≤ c * d * 10000))
unfolding verify_reserve_conservation
verify_reserve_conservation_exact a b c d t loan tolerance before called after given = (
  judge (pos (a * b)) (pos (c * d)) (pos t),
  simp (before, called, after, given),
  judge_exact (a * b) (c * d) t,
)
