-- ===== src/Retry/Landed.antt =====
-- When `idempotentResubmit` of src/utils/idempotent-resubmit.ts submits again.
use coralswap_sdk.Common.{
  ℕ, zero, suc, ◌+◌, ◌≤◌, ◌<◌, ◌≡◌, ◌⊎◌, inl, inr, refl, ap, arith, Bool, true, false, Result, ok,
  err, [],
}
use coralswap_sdk.Common.Attempts.{Every, at_start, at_next, from_zero, Every-nil, Every-cons}
use coralswap_sdk.Retry.{CircuitBreaker, before_request}
use coralswap_sdk.Retry.Loop.{Attempt, returned, failed, RetryConfig}
use coralswap_sdk.Retry.Resubmit.{
  Landing, landed, not_landed, check_threw, Resubmission, Outcome, hash, Submissions, round,
  resubmit_from, once_admitted, idempotent_resubmit,
}

module _ (c : RetryConfig) (r : Resubmission) where
  -- Attempt `i` failed in a way that may be retried, and did not land.
  abbrev pub Lost : ℕ → Type 0
  Lost i = (r.submit i ≡ failed true) × (r.check_landed i ≡ not_landed)

  -- The hash is that of attempt `i`, from its answer or from the check after it.
  abbrev pub Confirmed : ℕ → ℕ → Type 0
  Confirmed h i =
      (r.submit i ≡ returned h) ⊎ ((r.submit i ≡ failed true) × (r.check_landed i ≡ landed h))

  abbrev pub Explained : (left attempt : ℕ) → Submissions → Type 0
  Explained left attempt t =
      (n : ℕ) × (t.calls ≤ left)
      × (n ≤ t.calls)
      × (t.calls ≤ suc n)
      × Every Lost attempt n
      × ((h : ℕ) → t.outcome ≡ hash h → (t.calls ≡ suc n) × Confirmed h (attempt + n))

  ended :
      (left attempt : ℕ) (o : Outcome) (calls : ℕ)
      → calls ≤ 1
      → ((h : ℕ) → o ≡ hash h → (calls ≡ 1) × Confirmed h attempt)
      → Explained (suc left) attempt (record { outcome = o; calls = calls; delays = [] })
  ended left attempt o calls few why = (
    0,
    omega arith,
    omega arith,
    few,
    Every-nil Lost attempt,
    λ h e. let (one, confirmed) = why h e in (one, at_start (Confirmed h) attempt confirmed),
  )

  round-Explained :
      (late : Bool) (did : Attempt ℕ) (check : Landing) (left attempt delay : ℕ)
      (later : Submissions)
      → r.submit attempt ≡ did
      → r.check_landed attempt ≡ check
      → Explained left (suc attempt) later
      → Explained (suc left) attempt (round late did check left attempt delay later)
  round-Explained true did check left attempt delay later d k x =
      ended left attempt _ 0 (omega arith) (λ h e. cc)
  round-Explained false (returned v) check left attempt delay later d k x =
      ended left attempt _ 1 (omega arith) (λ h e. (refl, inl (cc (d, e))))
  round-Explained false (failed false) check left attempt delay later d k x =
      ended left attempt _ 1 (omega arith) (λ h e. cc)
  round-Explained false (failed true) check zero attempt delay later d k x =
      ended zero attempt _ 1 (omega arith) (λ h e. cc)
  round-Explained false (failed true) (landed v) (suc left) attempt delay later d k x =
      ended (suc left) attempt _ 1 (omega arith) (λ h e. (refl, inr (d, cc (k, e))))
  round-Explained false (failed true) check_threw (suc left) attempt delay later d k x =
      ended (suc left) attempt _ 1 (omega arith) (λ h e. cc)
  round-Explained false (failed true) not_landed (suc left) attempt delay later d k x =
      let (n, few, low, high, lost, why) = x in
      (
        suc n,
        omega arith,
        omega arith,
        omega arith,
        Every-cons Lost attempt n (d, k) lost,
        λ h e.
            let (all, confirmed) = why h e in
            (ap suc all, at_next (Confirmed h) attempt n confirmed),
      )

  resubmit_from-Explained :
      (left attempt : ℕ) → Explained left attempt (resubmit_from c r left attempt)
  unfolding resubmit_from
  resubmit_from-Explained zero attempt =
      (0, omega arith, omega arith, omega arith, Every-nil Lost attempt, λ h e. cc)
  resubmit_from-Explained (suc left) attempt =
      round-Explained _ _ _ left attempt _ _ refl refl (resubmit_from-Explained left (suc attempt))

  abbrev pub Safe : Submissions → Type 0
  Safe t =
      (t.calls ≤ suc c.max_retries)
      × ((i : ℕ) → suc i < t.calls → Lost i)
      × ((h : ℕ) → t.outcome ≡ hash h → (i : ℕ) × (t.calls ≡ suc i) × Confirmed h i)

  -- At most one submission more than the retries allowed is made, in whatever state the breaker is; every one
  -- but the last failed in a way that may be retried and was found not to have landed; and a hash that is
  -- returned is that of the last one, from its answer or from the check after it.
  pub idempotent_resubmit-Safe : (b : CircuitBreaker) → Safe (idempotent_resubmit c r b).1
  unfolding idempotent_resubmit
  idempotent_resubmit-Safe b = admitted-Safe (before_request b r.admitted_ms)
    where
      admitted-Safe : (q : Result CircuitBreaker) → Safe (once_admitted c r b q).1
      admitted-Safe (err thrown) = (omega arith, λ i h. absurd (omega arith), λ h e. cc)
      admitted-Safe (ok b') =
          let (n, few, low, high, lost, why) = resubmit_from-Explained (suc c.max_retries) 0 in
          (
            few,
            λ i h. from_zero Lost i (lost i (omega arith)),
            λ h e. let (all, confirmed) = why h e in (n, all, from_zero (Confirmed h) n confirmed),
          )
