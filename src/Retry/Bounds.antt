-- ===== src/Retry/Bounds.antt =====
-- How a `withRetry` of src/utils/retry.ts ends, and how often it calls.
use coralswap_sdk.Common.{
  ℕ, zero, suc, ◌+◌, ◌≤◌, ◌<◌, ◌≡◌, ◌⊎◌, inl, inr, refl, ap, arith, Bool, true, false, ok, err,
  Result, SdkError, circuit_open,
}
use mathlib.Core.Path.{subst}
use coralswap_sdk.Retry.{CircuitBreaker, get_state, before_request}
use coralswap_sdk.Retry.Loop.{
  Attempt, returned, failed, RetryConfig, Run, Ending, value, deadline_exceeded, error_of,
  no_attempt, refused, Trace, round, backoff, past, attempts, retries, with_retry, admitted,
}

-- The only error of `beforeRequest`.
refusal :
    (b : CircuitBreaker) (now : ℕ) (thrown : SdkError)
    → before_request b now ≡ err thrown
    → thrown ≡ circuit_open
unfolding before_request
refusal b now thrown e = ground arith

module _ {A : Type 0} (c : RetryConfig) (r : Run A) where
  -- The `n` attempts from `attempt` on failed in a way that may be retried.
  abbrev pub Retried : ℕ → ℕ → Type 0
  Retried attempt n = (i : ℕ) → i < n → r.call (attempt + i) ≡ failed true

  -- Why the loop with `left` rounds ended after `calls` calls.
  abbrev pub Ends : ℕ → ℕ → Ending A → ℕ → Type 0
  Ends left attempt (value a) calls =
      (n : ℕ) × (calls ≡ suc n) × Retried attempt n × (r.call (attempt + n) ≡ returned a)
  Ends left attempt (error_of i) calls =
      (n : ℕ) × (calls ≡ suc n)
      × Retried attempt n
      × (i ≡ attempt + n)
      × ((r.call i ≡ failed false) ⊎ ((r.call i ≡ failed true) × (calls ≡ left)))
  Ends left attempt deadline_exceeded calls =
      Retried attempt calls
      × (calls < left)
      × (past c.deadline_ms (r.attempt_ms (attempt + calls)) ≡ true)
  Ends left attempt no_attempt calls = left ≡ 0
  Ends left attempt refused calls = ⊥

  shift : (attempt n : ℕ) → suc attempt + n ≡ attempt + suc n
  shift attempt n = omega arith

  start : (attempt : ℕ) → attempt ≡ attempt + 0
  start attempt = omega arith

  Retried-nil : (attempt : ℕ) → Retried attempt 0
  Retried-nil attempt i h = elim h [ ]

  Retried-cons :
      (attempt n : ℕ)
      → r.call attempt ≡ failed true
      → Retried (suc attempt) n
      → Retried attempt (suc n)
  Retried-cons attempt n first rest zero h =
      subst (λ k. r.call k ≡ failed true) (start attempt) first
  Retried-cons attempt n first rest (suc i) h =
      subst (λ k. r.call k ≡ failed true) (shift attempt i) (rest i (omega arith))

  Ends-later :
      (left attempt : ℕ) (e : Ending A) (calls : ℕ)
      → r.call attempt ≡ failed true
      → Ends (suc left) (suc attempt) e calls
      → Ends (suc (suc left)) attempt e (suc calls)
  Ends-later left attempt (value a) calls f (n, same, before, last) = (
    suc n,
    ap suc same,
    Retried-cons attempt n f before,
    subst (λ k. r.call k ≡ returned a) (shift attempt n) last,
  )
  Ends-later left attempt (error_of i) calls f (n, same, before, which, inl fatal) =
      (suc n, ap suc same, Retried-cons attempt n f before, omega arith, inl fatal)
  Ends-later left attempt (error_of i) calls f (n, same, before, which, inr (soft, all)) =
      (suc n, ap suc same, Retried-cons attempt n f before, omega arith, inr (soft, ap suc all))
  Ends-later left attempt deadline_exceeded calls f (before, few, late) = (
    Retried-cons attempt calls f before,
    omega arith,
    subst (λ k. past c.deadline_ms (r.attempt_ms k) ≡ true) (shift attempt calls) late,
  )
  Ends-later left attempt no_attempt calls f h = absurd (omega arith)
  Ends-later left attempt refused calls f h = absurd h

  abbrev Explained : ℕ → ℕ → Trace A → Type 0
  Explained left attempt t = Ends left attempt t.ending t.calls × (t.calls ≤ left)

  round-Explained :
      (p : Bool) (outcome : Attempt A) (left attempt delay : ℕ) (later : Trace A)
      → past c.deadline_ms (r.attempt_ms attempt) ≡ p
      → r.call attempt ≡ outcome
      → Explained left (suc attempt) later
      → Explained (suc left) attempt (round p outcome left attempt delay later)
  round-Explained true outcome left attempt delay later late did h = (
    (
      Retried-nil attempt,
      omega arith,
      subst (λ k. past c.deadline_ms (r.attempt_ms k) ≡ true) (start attempt) late,
    ),
    omega arith,
  )
  round-Explained false (returned a) left attempt delay later late did h = (
    (0, refl, Retried-nil attempt, subst (λ k. r.call k ≡ returned a) (start attempt) did),
    omega arith,
  )
  round-Explained false (failed false) left attempt delay later late did h =
      ((0, refl, Retried-nil attempt, start attempt, inl did), omega arith)
  round-Explained false (failed true) zero attempt delay later late did h =
      ((0, refl, Retried-nil attempt, start attempt, inr (did, refl)), omega arith)
  round-Explained false (failed true) (suc left) attempt delay later late did h =
      (Ends-later left attempt later.ending later.calls did h.0, omega (arith, h.1))

  attempts-Explained : (left attempt : ℕ) → Explained left attempt (attempts c r left attempt)
  unfolding attempts
  attempts-Explained zero attempt = (refl, omega arith)
  attempts-Explained (suc left) attempt =
      round-Explained (past c.deadline_ms (r.attempt_ms attempt)) (r.call attempt) left attempt
        (backoff c attempt) _ refl refl (attempts-Explained left (suc attempt))

  -- A request that is refused makes no call and leaves the breaker as it is. Any other makes at most one
  -- call more than the retries allowed, which are none in a half-open circuit, and its ending is
  -- explained by the calls: a value is that of the last call, an error is that of the last call, which may
  -- not be retried or used up the retries, and every call before the last failed in a way that may be
  -- retried; the deadline ends the loop only where it has passed.
  pub with_retry-Ends :
      (b : CircuitBreaker)
      → let (b', t) = with_retry c r b in
        ((before_request b r.admitted_ms ≡ err circuit_open)
          × (t.calls ≡ 0)
          × (t.ending ≡ refused)
          × (b' ≡ b))
        ⊎ (let limit = suc (retries c r (get_state b r.started_ms)) in
            Ends limit 0 t.ending t.calls × (t.calls ≤ limit))
  unfolding with_retry
  with_retry-Ends b = admitted-Ends (before_request b r.admitted_ms) refl
    where
      admitted-Ends :
          (q : Result CircuitBreaker)
          → before_request b r.admitted_ms ≡ q
          → let (b', t) = admitted c r b q in
            ((before_request b r.admitted_ms ≡ err circuit_open)
              × (t.calls ≡ 0)
              × (t.ending ≡ refused)
              × (b' ≡ b))
            ⊎ (let limit = suc (retries c r (get_state b r.started_ms)) in
                Ends limit 0 t.ending t.calls × (t.calls ≤ limit))
      admitted-Ends (err thrown) e =
          inl (rw (refusal b r.admitted_ms thrown e) at e, refl, refl, refl)
      admitted-Ends (ok b') e =
          inr (attempts-Explained (suc (retries c r (get_state b r.started_ms))) 0)
