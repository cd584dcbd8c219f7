-- ===== src/Retry/Tests.antt =====
-- Runs of `withRetry` and `idempotentResubmit`, and their theorems there.
use coralswap_sdk.Common.{
  ℕ, suc, ◌≤◌, ◌≡◌, ◌⊎◌, refl, true, false, none, some, [], ◌∷◌, ltb, if◌then◌else◌, err,
  circuit_open,
}
use coralswap_sdk.Retry.{CircuitBreaker, get_state, before_request, on_success}
use coralswap_sdk.Retry.Loop.{
  returned, failed, RetryConfig, Run, value, refused, attempts, retries, with_retry,
}
use coralswap_sdk.Retry.Resubmit.{
  Resubmission, landed, not_landed, hash, resubmit_from, idempotent_resubmit,
}
use coralswap_sdk.Retry.Landed.{Safe, idempotent_resubmit-Safe}
use coralswap_sdk.Retry.Bounds.{Ends, with_retry-Ends}

abbrev config : RetryConfig
config = record {
  max_retries = 3;
  base_delay_ms = 1000;
  backoff_multiplier = 2;
  max_delay_ms = 1500;
  deadline_ms = none;
}

-- Two time-outs, then a result.
abbrev flaky : Run ℕ
flaky = record {
  call = λ i. if ltb i 2 then failed true else returned 42;
  started_ms = 0;
  admitted_ms = 0;
  attempt_ms = λ i. i;
  ended_ms = 9;
}

abbrev fresh : CircuitBreaker
fresh = record {
  failure_threshold = 2;
  cooldown_ms = 100;
  consecutive_failures = 0;
  opened_at_ms = none;
  half_open_in_flight = false;
}

abbrev waiting : CircuitBreaker
waiting = record fresh { consecutive_failures = 2; opened_at_ms = some 50 }

flaky_run :
    with_retry config flaky fresh
    ≡ (fresh, record { ending = value 42; calls = 3; delays = 1000 ∷ 1500 ∷ [] })
unfolding with_retry attempts before_request on_success
flaky_run = refl

with_retry-Ends_example :
    let (b', t) = with_retry config flaky fresh in
    ((before_request fresh 0 ≡ err circuit_open)
      × (t.calls ≡ 0)
      × (t.ending ≡ refused)
      × (b' ≡ fresh))
    ⊎ (let limit = suc (retries config flaky (get_state fresh 0)) in
        Ends config flaky limit 0 t.ending t.calls × (t.calls ≤ limit))
with_retry-Ends_example = with_retry-Ends config flaky fresh

-- The first submission times out and is lost, the second times out and lands.
abbrev lands_second : Resubmission
lands_second = record {
  submit = λ i. failed true;
  check_landed = λ i. if ltb i 1 then not_landed else landed 55;
  admitted_ms = 0;
  attempt_ms = λ i. i;
  ended_ms = 9;
}

landed_second :
    (idempotent_resubmit config lands_second fresh).1
    ≡ record { outcome = hash 55; calls = 2; delays = 1000 ∷ [] }
unfolding idempotent_resubmit resubmit_from before_request
landed_second = refl

idempotent_resubmit-Safe_example :
    Safe config lands_second (idempotent_resubmit config lands_second fresh).1
idempotent_resubmit-Safe_example = idempotent_resubmit-Safe config lands_second fresh
