-- ===== src/Retry/Breaker.antt =====
-- The circuit breaker of src/utils/retry.ts: when it opens, and what it lets through.
use mathlib.Core.List.{foldl}
use native.Mathlib.Decide.{dec_lt}
use coralswap_sdk.Common.{
  ℕ, suc, ◌+◌, ◌≤◌, ◌<◌, ◌≡◌, refl, arith, none, some, false, true, ltb, if◌then◌else◌, List, [],
  ◌∷◌, length, last_of, ok, err, circuit_open,
}
use coralswap_sdk.Retry.{CircuitBreaker, half_open, get_state, before_request, on_failure}

-- Failures at these times, with no success between them.
abbrev pub failures : CircuitBreaker → List ℕ → CircuitBreaker
failures b times = foldl on_failure b times

failures-threshold :
    (b : CircuitBreaker) (times : List ℕ)
    → (failures b times).failure_threshold ≡ b.failure_threshold
unfolding on_failure
failures-threshold b [] = refl
failures-threshold b (t ∷ times) = failures-threshold (on_failure b t) times

failures-cooldown :
    (b : CircuitBreaker) (times : List ℕ) → (failures b times).cooldown_ms ≡ b.cooldown_ms
unfolding on_failure
failures-cooldown b [] = refl
failures-cooldown b (t ∷ times) = failures-cooldown (on_failure b t) times

-- Below the threshold nothing happens.
stays_closed :
    (b : CircuitBreaker) (times : List ℕ)
    → b.opened_at_ms ≡ none
    → b.consecutive_failures + length times < b.failure_threshold
    → (failures b times).opened_at_ms ≡ none
unfolding on_failure
stays_closed b [] closed_now h = closed_now
stays_closed b (t ∷ times) closed_now h =
    stays_closed (on_failure b t) times (ground arith) (omega arith)

opens_at_last :
    (b : CircuitBreaker) (t : ℕ) (times : List ℕ)
    → b.failure_threshold ≤ suc (b.consecutive_failures + length times)
    → (failures b (t ∷ times)).opened_at_ms ≡ some (last_of t times)
unfolding on_failure
opens_at_last b t [] h = ground arith
opens_at_last b t (u ∷ times) h = opens_at_last (on_failure b t) u times (omega arith)

not_probing :
    (b : CircuitBreaker) (t : ℕ) (times : List ℕ)
    → (failures b (t ∷ times)).half_open_in_flight ≡ false
unfolding on_failure
not_probing b t [] = refl
not_probing b t (u ∷ times) = not_probing (on_failure b t) u times

-- A breaker that has seen no failure since its last success lets the next request through after failures
-- that are fewer than its threshold. From the threshold on it is open since the last failure: it refuses
-- every request until the cooldown has passed, and then lets one through to probe.
pub breaker_opens :
    (b : CircuitBreaker) (t : ℕ) (times : List ℕ) (now : ℕ)
    → b.consecutive_failures ≡ 0
    → b.opened_at_ms ≡ none
    → let f = failures b (t ∷ times) in
      before_request f now ≡ (
        if ltb (suc (length times)) b.failure_threshold
        then ok f
        else if ltb now (last_of t times + b.cooldown_ms)
        then err circuit_open
        else ok (record f { half_open_in_flight = true }))
unfolding before_request
breaker_opens b t times now fresh closed_now =
    elim (dec_lt (suc (length times)) b.failure_threshold) [
      | yes few ↦ let still = stays_closed b (t ∷ times) closed_now (omega arith) in ground arith
      | no many ↦
          let opened = opens_at_last b t times (omega arith) in
          ground (arith, failures-cooldown b (t ∷ times), not_probing b t times)
    ]

-- Once the cooldown has passed, one request is let through to probe; until that one is settled every
-- other request is refused, at whatever later time.
pub half_open_admits_one :
    (b b' : CircuitBreaker) (now later : ℕ)
    → get_state b now ≡ half_open
    → before_request b now ≡ ok b'
    → now ≤ later
    → before_request b' later ≡ err circuit_open
unfolding before_request
half_open_admits_one b b' now later state e h = ground arith
