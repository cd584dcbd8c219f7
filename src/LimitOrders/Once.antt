-- ===== src/LimitOrders/Once.antt =====
-- When a placement or a cancellation of a limit order is submitted again, and how it ends.
use coralswap_sdk.Common.{
  ℕ, zero, suc, ◌+◌, ◌≤◌, ◌<◌, ◌≡◌, ◌⊎◌, inl, inr, refl, ap, arith, Bool, true, false, Option, none,
  some, Result, ok, err, transaction,
}
use coralswap_sdk.Common.Attempts.{Every, at_start, at_next, from_zero, Every-nil, Every-cons}
use coralswap_sdk.Submission.{
  TransactionStatus, success, failed, not_found, unknown, get_transaction_status,
  should_retry_submission,
}
use coralswap_sdk.LimitOrders.Resubmit.{
  SubmitResult, confirmed, rejected, SubmissionOutcome, landed, not_landed, failed_on_chain,
  Attempts, Submitted, classify_failed_submission, max_idempotent_resubmissions, stop, once_more,
  by_outcome, never_sent, attempt_submission, submit_from, submit_with_idempotent_resubmission,
}

-- Where a failed submission has a hash, what the contract says is never used: the status of the hash
-- decides alone, and only a hash that the network has not seen counts as not landed.
pub classify_failed_submission_by_status :
    (tx_hash : ℕ) (status : TransactionStatus) (said said' : Result Bool)
    → (classify_failed_submission (some tx_hash) status said
        ≡ classify_failed_submission (some tx_hash) status said')
      × (classify_failed_submission (some tx_hash) status said ≡ ok not_landed → status ≡ not_found)
unfolding classify_failed_submission should_retry_submission
classify_failed_submission_by_status tx_hash (success ledger) said said' = (refl, λ e. cc)
classify_failed_submission_by_status tx_hash (failed ledger) said said' = (refl, λ e. cc)
classify_failed_submission_by_status tx_hash not_found said said' = (refl, λ e. refl)
classify_failed_submission_by_status tx_hash unknown said said' = (refl, λ e. cc)

module _ (w : Attempts) where
  abbrev classified : Option ℕ → ℕ → Result SubmissionOutcome
  classified tx_hash i =
      classify_failed_submission tx_hash (get_transaction_status (w.lookup i)) (w.has_landed i)

  -- Attempt `i` was rejected in a way that leaves open whether it landed, and was classified as `o`.
  abbrev pub Classified : Result SubmissionOutcome → ℕ → Type 0
  Classified o i =
      (h : Option ℕ) × (retryable : Bool) × (w.submit i ≡ rejected h retryable)
      × (never_sent h retryable ≡ false)
      × (classify_failed_submission h (get_transaction_status (w.lookup i)) (w.has_landed i) ≡ o)

  -- What ended the loop at attempt `i`, with `left` resubmissions to go.
  abbrev pub Ended : Result (Option ℕ) → ℕ → ℕ → Type 0
  Ended (ok (some h)) left i = w.submit i ≡ confirmed h
  Ended (ok none) left i = Classified (ok landed) i
  Ended (err thrown) left i =
      ((thrown ≡ transaction)
        × (w.submit i ≡ rejected none false
            ⊎ (Classified (ok failed_on_chain) i ⊎ (Classified (ok not_landed) i × (left ≡ 0)))))
      ⊎ Classified (err thrown) i

  record Explained (left attempt : ℕ) (t : Submitted) : Type 0 where
    last : ℕ
    counted : t.submissions ≡ suc last
    few : last ≤ left
    earlier : Every (Classified (ok not_landed)) attempt last
    ended : (rest : ℕ) × (rest + last ≡ left) × Ended t.outcome rest (attempt + last)

  stopped :
      (left attempt : ℕ) (o : Result (Option ℕ))
      → Ended o left attempt
      → Explained left attempt (stop o)
  stopped left attempt o e = record {
    last = 0;
    counted = refl;
    few = omega arith;
    earlier = Every-nil (Classified (ok not_landed)) attempt;
    ended = (left, omega arith, at_start (Ended o left) attempt e);
  }

  sent_again :
      (left attempt : ℕ) (later : Submitted)
      → Classified (ok not_landed) attempt
      → Explained left (suc attempt) later
      → Explained (suc left) attempt (once_more later)
  sent_again left attempt later c x = record {
    last = suc x.last;
    counted = ap suc x.counted;
    few = omega (arith, x.few);
    earlier = Every-cons (Classified (ok not_landed)) attempt x.last c x.earlier;
    ended =
        let (rest, sum, e) = x.ended in
        (rest, omega (arith, sum), at_next (Ended later.outcome rest) attempt x.last e);
  }

  abbrev Later : ℕ → ℕ → Submitted → Type 0
  Later zero attempt later = Unit
  Later (suc left) attempt later = Explained left (suc attempt) later

  outcome-Explained :
      (left attempt : ℕ) (o : Result SubmissionOutcome) (later : Submitted)
      → Classified o attempt
      → Later left attempt later
      → Explained left attempt (by_outcome o left later)
  outcome-Explained left attempt (err thrown) later c x = stopped left attempt _ (inr c)
  outcome-Explained left attempt (ok landed) later c x = stopped left attempt _ c
  outcome-Explained left attempt (ok failed_on_chain) later c x =
      stopped left attempt _ (inl (refl, inr (inl c)))
  outcome-Explained zero attempt (ok not_landed) later c x =
      stopped zero attempt _ (inl (refl, inr (inr (c, refl))))
  outcome-Explained (suc left) attempt (ok not_landed) later c x = sent_again left attempt later c x

  attempt-Explained :
      (left attempt : ℕ) (q : SubmitResult) (later : Submitted)
      → w.submit attempt ≡ q
      → Later left attempt later
      → Explained left attempt (
          attempt_submission q
            (get_transaction_status (w.lookup attempt))
            (w.has_landed attempt)
            left
            later)
  attempt-Explained left attempt (confirmed h) later did x = stopped left attempt _ did
  attempt-Explained left attempt (rejected none false) later did x =
      stopped left attempt _ (inl (refl, inl did))
  attempt-Explained left attempt (rejected none true) later did x =
      outcome-Explained left attempt (classified none attempt) later (none, true, did, refl, refl) x
  attempt-Explained left attempt (rejected (some h) retryable) later did x =
      outcome-Explained left attempt (classified (some h) attempt) later
        (some h, retryable, did, refl, refl) x

  submit_from-Explained : (left attempt : ℕ) → Explained left attempt (submit_from w left attempt)
  unfolding submit_from
  submit_from-Explained zero attempt = attempt-Explained zero attempt (w.submit attempt) _ refl tt
  submit_from-Explained (suc left) attempt =
      attempt-Explained (suc left) attempt (w.submit attempt) _ refl
        (submit_from-Explained left (suc attempt))

  -- There are at most three submissions, and every one but the last was rejected and found not to have
  -- landed. The call returns a hash only where the last submission was confirmed with that hash, and no hash
  -- only where the last one was rejected but found to have landed. It throws a `TransactionError` where the last
  -- one never reached the network, failed on the chain, or is the third and has not landed; and otherwise
  -- what the reading of the contract threw.
  pub submit_order-Ended :
      let t = submit_with_idempotent_resubmission w in
      (last : ℕ) × (t.submissions ≡ suc last)
      × (last ≤ max_idempotent_resubmissions)
      × ((i : ℕ) → i < last → Classified (ok not_landed) i)
      × (rest : ℕ) × (rest + last ≡ max_idempotent_resubmissions)
      × Ended t.outcome rest last
  unfolding submit_with_idempotent_resubmission
  submit_order-Ended =
      let x = submit_from-Explained max_idempotent_resubmissions 0 in
      let (rest, sum, e) = x.ended in
      (
        x.last,
        x.counted,
        x.few,
        λ i h. from_zero (Classified (ok not_landed)) i (x.earlier i h),
        rest,
        sum,
        from_zero (Ended (submit_from w max_idempotent_resubmissions 0).outcome rest) x.last e,
      )
