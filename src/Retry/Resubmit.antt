-- ===== src/Retry/Resubmit.antt =====
-- `idempotentResubmit` of src/utils/idempotent-resubmit.ts: the retry loop that asks between the attempts
-- whether the last one landed. What each attempt and each question do is a parameter; a hash is a number.
use coralswap_sdk.Common.{ℕ, zero, suc, Bool, true, false, List, [], ◌∷◌, Result, ok, err}
use coralswap_sdk.Retry.{CircuitBreaker, before_request, on_success, on_failure}
use coralswap_sdk.Retry.Loop.{Attempt, returned, failed, RetryConfig, backoff, past}

-- What `checkLanded` says after attempt `i`: the hash that landed, that none did, or it throws.
pub data Landing : Type 0 where
  landed : (tx_hash : ℕ) → Landing
  not_landed check_threw : Landing

pub record Resubmission : Type 0 where
  pub submit : ℕ → Attempt ℕ
  pub check_landed : ℕ → Landing
  pub admitted_ms : ℕ
  pub attempt_ms : ℕ → ℕ
  pub ended_ms : ℕ

-- A hash, `DeadlineError`, the error of an attempt or of a check, or `CircuitOpenError`.
pub data Outcome : Type 0 where
  hash : (tx_hash : ℕ) → Outcome
  deadline_exceeded no_attempt refused : Outcome
  error_of check_error_of : (attempt : ℕ) → Outcome

pub record Submissions : Type 0 where
  pub outcome : Outcome
  pub calls : ℕ
  pub delays : List ℕ

abbrev pub stop : Outcome → ℕ → Submissions
stop outcome calls = record { outcome = outcome; calls = calls; delays = [] }

abbrev pub wait : ℕ → Submissions → Submissions
wait delay later = record later { calls = suc later.calls; delays = delay ∷ later.delays }

abbrev pub after_check : Landing → (attempt delay : ℕ) → Submissions → Submissions
after_check (landed tx_hash) attempt delay later = stop (hash tx_hash) 1
after_check not_landed attempt delay later = wait delay later
after_check check_threw attempt delay later = stop (check_error_of attempt) 1

abbrev pub round : Bool → Attempt ℕ → Landing → (left attempt delay : ℕ) → Submissions → Submissions
round true outcome check left attempt delay later = stop deadline_exceeded 0
round false (returned tx_hash) check left attempt delay later = stop (hash tx_hash) 1
round false (failed false) check left attempt delay later = stop (error_of attempt) 1
round false (failed true) check zero attempt delay later = stop (error_of attempt) 1
round false (failed true) check (suc left) attempt delay later =
    after_check check attempt delay later

module _ (c : RetryConfig) (r : Resubmission) where
  -- The `for` loop with `left` rounds to go.
  unfoldable pub resubmit_from : ℕ → ℕ → Submissions
  resubmit_from zero attempt = stop no_attempt 0
  resubmit_from (suc left) attempt =
      round (past c.deadline_ms (r.attempt_ms attempt)) (r.submit attempt) (r.check_landed attempt)
        left attempt (backoff c attempt) (resubmit_from left (suc attempt))

  abbrev pub settle : CircuitBreaker → Outcome → CircuitBreaker
  settle b (hash tx_hash) = on_success b
  settle b deadline_exceeded = on_failure b r.ended_ms
  settle b no_attempt = on_failure b r.ended_ms
  settle b refused = b
  settle b (error_of attempt) = on_failure b r.ended_ms
  settle b (check_error_of attempt) = on_failure b r.ended_ms

  abbrev pub once_admitted : CircuitBreaker → Result CircuitBreaker → CircuitBreaker × Submissions
  once_admitted b (err thrown) = (b, stop refused 0)
  once_admitted b (ok b') = let t = resubmit_from (suc c.max_retries) 0 in (settle b' t.outcome, t)

  unfoldable pub idempotent_resubmit : CircuitBreaker → CircuitBreaker × Submissions
  idempotent_resubmit b = once_admitted b (before_request b r.admitted_ms)
