-- ===== src/LimitOrders/Resubmit.antt =====
-- `submitWithIdempotentResubmission` and `classifyFailedSubmission` of src/modules/limit-orders.ts: what a
-- placement or a cancellation does when a submission fails.
use coralswap_sdk.Common.{
  ℕ, zero, suc, Bool, false, not, Option, none, some, Result, ok, err, transaction, ◌>>=◌,
  if◌then◌else◌,
}
use coralswap_sdk.Submission.{
  Response, TransactionStatus, success, not_found, get_transaction_status, block,
  should_retry_submission,
}

-- The `Result` of `client.submitTransaction`: confirmed, or an error with or without a hash, and
-- whether `isRetryable` holds of the error.
pub data SubmitResult : Type 0 where
  confirmed : (tx_hash : ℕ) → SubmitResult
  rejected : (tx_hash : Option ℕ) (retryable : Bool) → SubmitResult

pub data SubmissionOutcome : Type 0 where
  landed not_landed failed_on_chain : SubmissionOutcome

-- What attempt `i` answers, what the RPC server says of its hash, and what the contract says
-- afterwards, by the `hasLanded` of the caller: `orderExists` or `wasCancelled`.
pub record Attempts : Type 0 where
  pub submit : ℕ → SubmitResult
  pub lookup : ℕ → Response
  pub has_landed : ℕ → Result Bool

-- How the call ended, and the submissions it made.
pub record Submitted : Type 0 where
  pub outcome : Result (Option ℕ)
  pub submissions : ℕ

abbrev pub by_contract : Result Bool → Result SubmissionOutcome
by_contract said = said >>= λ yes_it_did. ok (if yes_it_did then landed else not_landed)

abbrev pub final : TransactionStatus → SubmissionOutcome
final (success ledger) = landed
final _ = failed_on_chain

abbrev pub unless_not_found :
    TransactionStatus → Result SubmissionOutcome → Result SubmissionOutcome
unless_not_found not_found otherwise = ok not_landed
unless_not_found _ otherwise = otherwise

unfoldable pub classify_failed_submission :
    Option ℕ → TransactionStatus → Result Bool → Result SubmissionOutcome
classify_failed_submission none status said = by_contract said
classify_failed_submission (some tx_hash) status said =
    if not (should_retry_submission status block)
    then ok (final status)
    else unless_not_found status (by_contract said)

abbrev pub max_idempotent_resubmissions : ℕ
max_idempotent_resubmissions = 2

abbrev pub stop : Result (Option ℕ) → Submitted
stop outcome = record { outcome = outcome; submissions = 1 }

abbrev pub once_more : Submitted → Submitted
once_more later = record later { submissions = suc later.submissions }

abbrev pub again_or_stop : ℕ → Submitted → Submitted
again_or_stop zero later = stop (err transaction)
again_or_stop (suc left) later = once_more later

-- After a failed submission, with `left` resubmissions to go; `later` is what the attempts after it do.
abbrev pub by_outcome : Result SubmissionOutcome → ℕ → Submitted → Submitted
by_outcome (err thrown) left later = stop (err thrown)
by_outcome (ok landed) left later = stop (ok none)
by_outcome (ok failed_on_chain) left later = stop (err transaction)
by_outcome (ok not_landed) left later = again_or_stop left later

-- `!result.txHash && !isRetryable(result.error)`
abbrev pub never_sent : Option ℕ → Bool → Bool
never_sent none retryable = not retryable
never_sent (some tx_hash) retryable = false

abbrev pub attempt_submission :
    SubmitResult → TransactionStatus → Result Bool → ℕ → Submitted → Submitted
attempt_submission (confirmed tx_hash) status said left later = stop (ok (some tx_hash))
attempt_submission (rejected tx_hash retryable) status said left later =
    if never_sent tx_hash retryable
    then stop (err transaction)
    else by_outcome (classify_failed_submission tx_hash status said) left later

module _ (w : Attempts) where
  -- The loop at attempt `attempt`.
  unfoldable pub submit_from : (left attempt : ℕ) → Submitted
  submit_from zero attempt =
      attempt_submission (w.submit attempt) (get_transaction_status (w.lookup attempt))
        (w.has_landed attempt) zero (stop (err transaction))
  submit_from (suc left) attempt =
      let later = submit_from left (suc attempt) in
      attempt_submission (w.submit attempt) (get_transaction_status (w.lookup attempt))
        (w.has_landed attempt) (suc left) later

  unfoldable pub submit_with_idempotent_resubmission : Submitted
  submit_with_idempotent_resubmission = submit_from max_idempotent_resubmissions 0
