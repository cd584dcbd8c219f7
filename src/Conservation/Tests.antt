-- ===== src/Conservation/Tests.antt =====
-- A loan that leaves the reserves a little short.
use coralswap_sdk.Common.{◌-◌, ◌*◌, ◌≤◌, ◌≡◌, ◌↔◌, refl, true, none, ok, pos}
use coralswap_sdk.Conservation.{Loan, ReserveConservationResult, verify_reserve_conservation}
use coralswap_sdk.Conservation.Exact.{verify_reserve_conservation_exact}

abbrev loan : Loan
loan = record {
  reserves_before = ok (record { reserve0 = pos 1000; reserve1 = pos 999 });
  borrower_callback = ok tt;
  reserves_after = ok (record { reserve0 = pos 1000; reserve1 = pos 996 });
  flash_fee_bps = ok (pos 30);
}

verify_reserve_conservation_exact_example :
    (r : ReserveConservationResult) × (verify_reserve_conservation loan none ≡ ok r)
    × ((r.is_ok ≡ true) ↔ (1000 * 999 * (10000 - 30) ≤ 1000 * 996 * 10000))
verify_reserve_conservation_exact_example =
    verify_reserve_conservation_exact 1000 999 1000 996 30 loan none refl refl refl refl
