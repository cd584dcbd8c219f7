-- ===== src/Pool/Tests.antt =====
-- A pool of three endpoints, the second of which is down, and the theorems there.
use coralswap_sdk.Common.{◌≡◌, refl, some, none, [], ◌∷◌, ok}
use coralswap_sdk.Pool.{
  ConnectionPool, ConnectionPoolOptions, new_pool, pool_of, report_failure, get_endpoint, pass,
}
use coralswap_sdk.Pool.Pick.{Picked}
use coralswap_sdk.Pool.Rounds.{Reachable, made, then_call, fails, gets, Reachable-Picked}

abbrev options : ConnectionPoolOptions
options = record {
  failure_threshold = some 1;
  recovery_time_ms = none;
  failure_timeout_ms = some 100;
}

abbrev fresh : ConnectionPool
fresh = pool_of (10 ∷ 20 ∷ 30 ∷ []) options

abbrev once : ConnectionPool
once = record (report_failure fresh 20 7) { rr_index = 1 }

next_endpoint : get_endpoint once 50 ≡ ok (record once { rr_index = 0 }, 30)
unfolding get_endpoint pass report_failure
next_endpoint = refl

once-Reachable : Reachable once
unfolding new_pool get_endpoint pass report_failure
once-Reachable =
    then_call (then_call (made (some (10 ∷ 20 ∷ 30 ∷ [])) options refl) (fails 20 7))
      (gets 10 8 refl)

Reachable-Picked_example : Picked once 50 (get_endpoint once 50)
Reachable-Picked_example = Reachable-Picked 50 once-Reachable
