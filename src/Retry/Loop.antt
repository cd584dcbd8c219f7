-- ===== src/Retry/Loop.antt =====
-- `withRetry` of src/utils/retry.ts. What the call does, and when, is a parameter: the outcome of each
-- attempt and the clock.
use Prim.Native.Nat.{min}
use coralswap_sdk.Common.{
  ℕ, zero, suc, ◌*◌, ◌^◌, leb, Bool, true, false, Option, none, some, List, [], ◌∷◌, Result, ok,
  err,
}
use coralswap_sdk.Retry.{
  CircuitBreaker, CircuitState, closed, open_now, half_open, get_state, before_request, on_success,
  on_failure,
}

-- One call of `fn`: it returns, or it throws an error that `isRetryable` accepts or not.
pub data Attempt (A : Type 0) : Type 0 where
  returned : A → Attempt A
  failed : Bool → Attempt A

pub record RetryConfig : Type 0 where
  pub max_retries : ℕ
  pub base_delay_ms : ℕ
  pub backoff_multiplier : ℕ
  pub max_delay_ms : ℕ
  pub deadline_ms : Option ℕ

-- The world of one `withRetry`: the outcome of attempt `i`, and the times at which the state is read, at
-- which the request is admitted, at which attempt `i` begins, and at which the call gives up.
pub record Run (A : Type 0) : Type 0 where
  pub call : ℕ → Attempt A
  pub started_ms : ℕ
  pub admitted_ms : ℕ
  pub attempt_ms : ℕ → ℕ
  pub ended_ms : ℕ

-- How it ends: a value, `DeadlineError`, the error of an attempt, or `CircuitOpenError`.
pub data Ending (A : Type 0) : Type 0 where
  value : A → Ending A
  deadline_exceeded : Ending A
  error_of : ℕ → Ending A
  no_attempt : Ending A
  refused : Ending A

-- An ending, the number of calls of `fn`, and the delays slept.
pub record Trace (A : Type 0) : Type 0 where
  pub ending : Ending A
  pub calls : ℕ
  pub delays : List ℕ

-- `Math.min(maxDelayMs, baseDelayMs * Math.pow(backoffMultiplier, attempt))`
abbrev pub backoff : RetryConfig → ℕ → ℕ
backoff c attempt = min c.max_delay_ms (c.base_delay_ms * c.backoff_multiplier ^ attempt)

-- `typeof deadlineMs === "number" && Date.now() >= deadlineMs`
abbrev pub past : Option ℕ → ℕ → Bool
past none now = false
past (some deadline) now = leb deadline now

module _ {A : Type 0} where
  abbrev pub slept : ℕ → Trace A → Trace A
  slept delay t = record t { calls = suc t.calls; delays = delay ∷ t.delays }

  abbrev pub stop : Ending A → ℕ → Trace A
  stop ending calls = record { ending = ending; calls = calls; delays = [] }

  -- One round: whether the deadline has passed, what the call did, the rounds left after this one, and
  -- the trace of those, which is read only if the loop goes on.
  abbrev pub round : Bool → Attempt A → (left attempt delay : ℕ) → Trace A → Trace A
  round true outcome left attempt delay later = stop deadline_exceeded 0
  round false (returned a) left attempt delay later = stop (value a) 1
  round false (failed false) left attempt delay later = stop (error_of attempt) 1
  round false (failed true) zero attempt delay later = stop (error_of attempt) 1
  round false (failed true) (suc left) attempt delay later = slept delay later

module _ {A : Type 0} (c : RetryConfig) (r : Run A) where
  -- The `for` loop with `left` rounds to go, the next one being attempt `attempt`.
  unfoldable pub attempts : ℕ → ℕ → Trace A
  attempts zero attempt = stop no_attempt 0
  attempts (suc left) attempt =
      let later = attempts left (suc attempt) in
      round (past c.deadline_ms (r.attempt_ms attempt)) (r.call attempt) left attempt
        (backoff c attempt) later

  abbrev pub retries : CircuitState → ℕ
  retries half_open = 0
  retries closed = c.max_retries
  retries open_now = c.max_retries

  -- `breaker.onSuccess()` where a value is returned, `breaker.onFailure()` otherwise.
  abbrev pub settle : CircuitBreaker → Ending A → CircuitBreaker
  settle b (value a) = on_success b
  settle b deadline_exceeded = on_failure b r.ended_ms
  settle b (error_of i) = on_failure b r.ended_ms
  settle b no_attempt = on_failure b r.ended_ms
  settle b refused = b

  -- The rest of the call, from what `breaker.beforeRequest()` did.
  abbrev pub admitted : CircuitBreaker → Result CircuitBreaker → CircuitBreaker × Trace A
  admitted b (err thrown) = (b, stop refused 0)
  admitted b (ok b') =
      let t = attempts (suc (retries (get_state b r.started_ms))) 0 in (settle b' t.ending, t)

  unfoldable pub with_retry : CircuitBreaker → CircuitBreaker × Trace A
  with_retry b = admitted b (before_request b r.admitted_ms)
