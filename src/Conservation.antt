-- ===== src/Conservation.antt =====
-- src/contracts/reserve-conservation.ts: the check that a flash loan left the product of the reserves.
pub mod Exact
mod Tests
use coralswap_sdk.Common.{
  ℕ, Bool, if◌then◌else◌, Option, none, some, Result, ◌>>=◌, ok, ℤ, pos, ◌-ℤ◌, ◌*ℤ◌, quot, ltb_ℤ,
  leb_ℤ,
}

pub record PairReserves : Type 0 where
  pub reserve0 : ℤ
  pub reserve1 : ℤ

-- The pair before and after the callback: what `getReserves` answers, and the configured fee.
pub record Loan : Type 0 where
  pub reserves_before : Result PairReserves
  pub borrower_callback : Result (Unit {0})
  pub reserves_after : Result PairReserves
  pub flash_fee_bps : Result ℤ

pub record ReserveConservationResult : Type 0 where
  pub is_ok : Bool
  pub k_before : ℤ
  pub k_after : ℤ
  pub tolerance_bps : ℤ
  pub min_acceptable_k : ℤ

abbrev pub product : PairReserves → ℤ
product r = r.reserve0 *ℤ r.reserve1

abbrev pub tolerance_of : Option ℤ → Loan → Result ℤ
tolerance_of none loan = loan.flash_fee_bps
tolerance_of (some tolerance) loan = ok tolerance

abbrev pub least_k : (k_before tolerance_bps : ℤ) → ℤ
least_k k_before tolerance_bps =
    let tolerance_amount = quot (k_before *ℤ tolerance_bps) (pos 10000) in
    if ltb_ℤ tolerance_amount k_before then k_before -ℤ tolerance_amount else pos 0

abbrev pub judge : (k_before k_after tolerance_bps : ℤ) → ReserveConservationResult
judge k_before k_after tolerance_bps = record {
  is_ok = leb_ℤ (least_k k_before tolerance_bps) k_after;
  k_before = k_before;
  k_after = k_after;
  tolerance_bps = tolerance_bps;
  min_acceptable_k = least_k k_before tolerance_bps;
}

unfoldable pub verify_reserve_conservation : Loan → Option ℤ → Result ReserveConservationResult
verify_reserve_conservation loan tolerance_bps = do
  before ← loan.reserves_before
  done ← loan.borrower_callback
  after ← loan.reserves_after
  tolerance ← tolerance_of tolerance_bps loan
  ok (judge (product before) (product after) tolerance)
