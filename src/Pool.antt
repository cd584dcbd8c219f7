-- ===== src/Pool.antt =====
-- src/utils/connection-pool.ts: the round-robin pool of RPC endpoints. A URL is a number, times are whole
-- milliseconds.
pub mod Pick
pub mod Rounds
pub mod Failing
mod Tests
use Prim.Native.Nat.{max}
use coralswap_sdk.Common.{
  ℕ, zero, suc, ◌+◌, ◌%◌, leb, ltb, ◌==◌, if◌then◌else◌, Bool, true, false, not, ◌&&◌, Option, none,
  some, or_else, List, [], ◌∷◌, ◌++◌, map, length, get_elem?, keep, Result, ok, err, pool_exhausted,
  plain,
}

pub record EndpointState : Type 0 where
  pub url : ℕ
  pub consecutive_failures : ℕ
  pub unhealthy_at : Option ℕ

pub record ConnectionPoolOptions : Type 0 where
  pub failure_threshold : Option ℕ
  pub recovery_time_ms : Option ℕ
  pub failure_timeout_ms : Option ℕ

pub record ConnectionPool : Type 0 where
  pub endpoints : List EndpointState
  pub failure_threshold : ℕ
  pub recovery_time_ms : ℕ
  pub rr_index : ℕ

abbrev pub healthy_endpoint : ℕ → EndpointState
healthy_endpoint url = record { url = url; consecutive_failures = 0; unhealthy_at = none }

abbrev first_of : Option ℕ → Option ℕ → Option ℕ
first_of none b = b
first_of (some a) b = some a

abbrev pub pool_of : List ℕ → ConnectionPoolOptions → ConnectionPool
pool_of urls options = record {
  endpoints = map healthy_endpoint urls;
  failure_threshold = or_else options.failure_threshold 3;
  recovery_time_ms = or_else (first_of options.recovery_time_ms options.failure_timeout_ms) 30_000;
  rr_index = 0;
}

-- The constructor: `none` where the first argument is the options.
unfoldable pub new_pool : Option (List ℕ) → ConnectionPoolOptions → Result ConnectionPool
new_pool none options = ok (pool_of [] options)
new_pool (some []) options = err plain
new_pool (some (url ∷ urls)) options = ok (pool_of (url ∷ urls) options)

-- `_find`
abbrev pub find_endpoint : List EndpointState → ℕ → Option EndpointState
find_endpoint [] url = none
find_endpoint (ep ∷ eps) url = if ep.url == url then some ep else find_endpoint eps url

-- The list after the endpoint that `_find` returns was changed by `f`.
abbrev pub change_found :
    (EndpointState → EndpointState) → List EndpointState → ℕ → List EndpointState
change_found f [] url = []
change_found f (ep ∷ eps) url = if ep.url == url then f ep ∷ eps else ep ∷ change_found f eps url

abbrev pub change : ConnectionPool → (EndpointState → EndpointState) → ℕ → ConnectionPool
change p f url = record p { endpoints = change_found f p.endpoints url }

abbrev pub added : Option EndpointState → List EndpointState → ℕ → List EndpointState
added none eps url = eps ++ (healthy_endpoint url ∷ [])
added (some ep) eps url = eps

unfoldable pub add_endpoint : ConnectionPool → ℕ → ConnectionPool
add_endpoint p url = record p { endpoints = added (find_endpoint p.endpoints url) p.endpoints url }

unfoldable pub remove_endpoint : ConnectionPool → ℕ → ConnectionPool
remove_endpoint p url =
    let left = keep (λ ep. not (ep.url == url)) p.endpoints in
    record p {
      endpoints = left;
      rr_index =
          if not (length left == length p.endpoints) && leb (length left) p.rr_index
          then 0
          else p.rr_index;
    }

unfoldable pub mark_failed : ConnectionPool → (url now : ℕ) → ConnectionPool
mark_failed p url now =
    change p
      (λ ep. record ep {
        consecutive_failures = max ep.consecutive_failures p.failure_threshold;
        unhealthy_at = some now;
      })
      url

unfoldable pub report_success : ConnectionPool → ℕ → ConnectionPool
report_success p url =
    change p (λ ep. record ep { consecutive_failures = 0; unhealthy_at = none }) url

unfoldable pub mark_healthy : ConnectionPool → ℕ → ConnectionPool
mark_healthy p url =
    change p (λ ep. record ep { consecutive_failures = 0; unhealthy_at = none }) url

unfoldable pub report_failure : ConnectionPool → (url now : ℕ) → ConnectionPool
report_failure p url now =
    change p
      (λ ep. record ep {
        consecutive_failures = suc ep.consecutive_failures;
        unhealthy_at =
            if leb p.failure_threshold (suc ep.consecutive_failures)
            then some now
            else ep.unhealthy_at;
      })
      url

-- `_isHealthy`; `nowMs - unhealthyAt >= recoveryTimeMs`, with no difference below zero.
abbrev pub recovered : Option ℕ → (recovery now : ℕ) → Bool
recovered none recovery now = true
recovered (some at) recovery now = leb (at + recovery) now

abbrev pub is_healthy : ConnectionPool → ℕ → EndpointState → Bool
is_healthy p now ep = recovered ep.unhealthy_at p.recovery_time_ms now

unfoldable pub healthy_endpoints : ConnectionPool → ℕ → List ℕ
healthy_endpoints p now = map (λ ep. ep.url) (keep (is_healthy p now) p.endpoints)

unfoldable pub unhealthy_endpoints : ConnectionPool → ℕ → List ℕ
unhealthy_endpoints p now = map (λ ep. ep.url) (keep (λ ep. not (is_healthy p now ep)) p.endpoints)

module _ (p : ConnectionPool) (now : ℕ) where
  -- One endpoint of the pass; `rest` is what the others give.
  abbrev pub visit :
      Option EndpointState → ℕ → Result (ConnectionPool × ℕ) → Result (ConnectionPool × ℕ)
  visit none idx rest = err plain
  visit (some ep) idx rest =
      if is_healthy p now ep
      then ok (record p { rr_index = (idx + 1) % length p.endpoints }, ep.url)
      else rest

  abbrev pub place : ℕ → ℕ
  place i = (p.rr_index + i) % length p.endpoints

  -- The `for` loop, with `left` endpoints to go.
  unfoldable pub pass : (left i : ℕ) → Result (ConnectionPool × ℕ)
  pass zero i = err pool_exhausted
  pass (suc left) i = visit (get_elem? p.endpoints (place i)) (place i) (pass left (suc i))

  unfoldable pub get_endpoint : Result (ConnectionPool × ℕ)
  get_endpoint = pass (length p.endpoints) 0
