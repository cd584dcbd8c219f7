-- ===== src/Retry.antt =====
-- src/utils/retry.ts: the circuit breaker and the retry loop. Times are whole milliseconds, and the
-- backoff multiplier is a whole number.
pub mod Loop
pub mod Registry
pub mod Resubmit
pub mod Landed
pub mod Breaker
pub mod Bounds
mod Tests
use coralswap_sdk.Common.{
  ℕ, suc, ◌+◌, leb, if◌then◌else◌, Bool, true, false, Option, none, some, Result, ok, err,
  circuit_open,
}

pub data CircuitState : Type 0 where
  closed open_now half_open : CircuitState

-- `class CircuitBreaker`; the label only names the breaker in messages.
pub record CircuitBreaker : Type 0 where
  pub failure_threshold : ℕ
  pub cooldown_ms : ℕ
  pub consecutive_failures : ℕ
  pub opened_at_ms : Option ℕ
  pub half_open_in_flight : Bool

pub record CircuitBreakerOptions : Type 0 where
  pub failure_threshold : Option ℕ
  pub cooldown_ms : Option ℕ

abbrev or_default : Option ℕ → ℕ → ℕ
or_default none d = d
or_default (some n) d = n

-- The constructor.
unfoldable pub new_breaker : CircuitBreakerOptions → CircuitBreaker
new_breaker options = record {
  failure_threshold = or_default options.failure_threshold 5;
  cooldown_ms = or_default options.cooldown_ms 30_000;
  consecutive_failures = 0;
  opened_at_ms = none;
  half_open_in_flight = false;
}

unfoldable pub set_options : CircuitBreaker → CircuitBreakerOptions → CircuitBreaker
set_options b options = record b {
  failure_threshold = or_default options.failure_threshold b.failure_threshold;
  cooldown_ms = or_default options.cooldown_ms b.cooldown_ms;
}

-- `nowMs - openedAtMs >= cooldownMs`, with no difference below zero.
abbrev pub state_since : Option ℕ → ℕ → ℕ → CircuitState
state_since none cooldown_ms now = closed
state_since (some opened) cooldown_ms now =
    if leb (opened + cooldown_ms) now then half_open else open_now

unfoldable pub get_state : CircuitBreaker → ℕ → CircuitState
get_state b now = state_since b.opened_at_ms b.cooldown_ms now

abbrev pub admit : CircuitState → CircuitBreaker → Result CircuitBreaker
admit closed b = ok b
admit open_now b = err circuit_open
admit half_open b =
    if b.half_open_in_flight then err circuit_open else ok (record b { half_open_in_flight = true })

unfoldable pub before_request : CircuitBreaker → ℕ → Result CircuitBreaker
unfolding get_state
before_request b now = admit (get_state b now) b

unfoldable pub on_success : CircuitBreaker → CircuitBreaker
on_success b = record b {
  consecutive_failures = 0;
  opened_at_ms = none;
  half_open_in_flight = false;
}

unfoldable pub on_failure : CircuitBreaker → ℕ → CircuitBreaker
on_failure b now = record b {
  half_open_in_flight = false;
  consecutive_failures = suc b.consecutive_failures;
  opened_at_ms =
      if leb b.failure_threshold (suc b.consecutive_failures) then some now else b.opened_at_ms;
}
