-- ===== src/Pool/Failing.antt =====
-- Failures reported to a `ConnectionPool` of src/utils/connection-pool.ts take one endpoint out of rotation.
use mathlib.Core.List.{foldl}
use coralswap_sdk.Common.{
  ℕ, suc, ◌+◌, ◌≤◌, ◌<◌, ◌≡◌, ◌≢◌, inl, inr, refl, ap, ◌∙◌, arith, true, false, if◌then◌else◌, leb,
  ◌==◌, none, some, List, [], ◌∷◌, length, last_of, Bool-cases,
}
use coralswap_sdk.Pool.{
  EndpointState, ConnectionPool, report_failure, change_found, find_endpoint, is_healthy,
}

-- `reportFailure` for `url` at these times, with nothing between them.
abbrev pub failures : ConnectionPool → ℕ → List ℕ → ConnectionPool
failures p url times = foldl (λ q now. report_failure q url now) p times

found_first :
    (e : EndpointState) (eps : List EndpointState) (url : ℕ)
    → (e.url == url) ≡ true
    → find_endpoint (e ∷ eps) url ≡ some e
found_first e eps url h = rw h

find-change_found :
    (f : EndpointState → EndpointState) (eps : List EndpointState) (url : ℕ) (ep : EndpointState)
    → ((e : EndpointState) → (f e).url ≡ e.url)
    → find_endpoint eps url ≡ some ep
    → find_endpoint (change_found f eps url) url ≡ some (f ep)
find-change_found f [] url ep keeps h = cc
find-change_found f (e ∷ eps) url ep keeps h = elim (Bool-cases (e.url == url)) [
  | inl here ↦
      let same : e ≡ ep = cc (rw here at h) in
      rw here (
        found_first (f e) eps url (ap (λ (u : ℕ). u == url) (keeps e) ∙ here)
        ∙ ap (λ x. some (f x)) same)
  | inr there ↦
      let same : find_endpoint eps url ≡ some ep = rw there at h in
      rw (there, there, find-change_found f eps url ep keeps same)
]

find-other :
    (f : EndpointState → EndpointState) (eps : List EndpointState) (url other : ℕ)
    → ((e : EndpointState) → (f e).url ≡ e.url)
    → other ≢ url
    → find_endpoint (change_found f eps url) other ≡ find_endpoint eps other
find-other f [] url other keeps h = refl
find-other f (e ∷ eps) url other keeps h = elim (Bool-cases (e.url == url)) [
  | inl here ↦ let apart : (e.url == other) ≡ false = ground arith in rw (here, keeps e, apart)
  | inr there ↦ rw (there, find-other f eps url other keeps h)
]

-- What a failure at `now` makes of an endpoint.
abbrev failed_at : ℕ → ℕ → EndpointState → EndpointState
failed_at threshold now ep = record ep {
  consecutive_failures = suc ep.consecutive_failures;
  unhealthy_at = if leb threshold (suc ep.consecutive_failures) then some now else ep.unhealthy_at;
}

find-failures :
    (p : ConnectionPool) (url : ℕ) (times : List ℕ) (ep : EndpointState)
    → find_endpoint p.endpoints url ≡ some ep
    → find_endpoint (failures p url times).endpoints url
      ≡ some (foldl (λ e now. failed_at p.failure_threshold now e) ep times)
unfolding report_failure
find-failures p url [] ep h = h
find-failures p url (t ∷ times) ep h =
    find-failures (report_failure p url t) url times (failed_at p.failure_threshold t ep)
      (find-change_found (failed_at p.failure_threshold t) p.endpoints url ep (λ e. refl) h)

failures-other :
    (p : ConnectionPool) (url other : ℕ) (times : List ℕ)
    → other ≢ url
    → find_endpoint (failures p url times).endpoints other ≡ find_endpoint p.endpoints other
unfolding report_failure
failures-other p url other [] h = refl
failures-other p url other (t ∷ times) h =
    failures-other (report_failure p url t) url other times h
    ∙ find-other (failed_at p.failure_threshold t) p.endpoints url other (λ e. refl) h

failures-recovery :
    (p : ConnectionPool) (url : ℕ) (times : List ℕ)
    → (failures p url times).recovery_time_ms ≡ p.recovery_time_ms
unfolding report_failure
failures-recovery p url [] = refl
failures-recovery p url (t ∷ times) = failures-recovery (report_failure p url t) url times

still_up :
    (threshold : ℕ) (ep : EndpointState) (times : List ℕ)
    → ep.unhealthy_at ≡ none
    → ep.consecutive_failures + length times < threshold
    → (foldl (λ e now. failed_at threshold now e) ep times).unhealthy_at ≡ none
still_up threshold ep [] up h = up
still_up threshold ep (t ∷ times) up h =
    still_up threshold (failed_at threshold t ep) times (ground arith) (omega arith)

down_since :
    (threshold : ℕ) (ep : EndpointState) (t : ℕ) (times : List ℕ)
    → threshold ≤ suc (ep.consecutive_failures + length times)
    → (foldl (λ e now. failed_at threshold now e) ep (t ∷ times)).unhealthy_at
      ≡ some (last_of t times)
down_since threshold ep t [] h = ground arith
down_since threshold ep t (u ∷ times) h =
    down_since threshold (failed_at threshold t ep) u times (omega arith)

-- An endpoint with no failure since its last success is healthy after fewer failures than the threshold,
-- at any time; from the threshold on it is unhealthy until the recovery time has passed since the last of
-- them, and healthy from then on. The endpoints of other URLs are as they were.
pub failures-is_healthy :
    (p : ConnectionPool) (url t : ℕ) (times : List ℕ) (ep : EndpointState) (other now : ℕ)
    → find_endpoint p.endpoints url ≡ some ep
    → ep.consecutive_failures ≡ 0
    → ep.unhealthy_at ≡ none
    → other ≢ url
    → let q = failures p url (t ∷ times) in
      ((ep' : EndpointState) × (find_endpoint q.endpoints url ≡ some ep')
        × (is_healthy q now ep' ≡ (
            if leb p.failure_threshold (suc (length times))
            then leb (last_of t times + p.recovery_time_ms) now
            else true)))
      × (find_endpoint q.endpoints other ≡ find_endpoint p.endpoints other)
failures-is_healthy p url t times ep other now there fresh up apart = (
  (
    _,
    find-failures p url (t ∷ times) ep there,
    elim (Bool-cases (leb p.failure_threshold (suc (length times)))) [
      | inl many ↦ rw (
        many,
        down_since p.failure_threshold ep t times (ground arith),
        failures-recovery p url (t ∷ times),
      )
      | inr few ↦ rw (few, still_up p.failure_threshold ep (t ∷ times) up (ground arith))
    ],
  ),
  failures-other p url other (t ∷ times) apart,
)
