-- ===== src/Submission.antt =====
-- Submitting a transaction when the answer may get lost: what the chain says about it, and whether it may
-- be sent again (src/utils/idempotent-resubmission.ts). A hash is a number.
pub mod Swap
pub mod SwapOnce
pub mod Liquidity
pub mod Rebuild
pub mod RebuildOnce
mod Tests
use coralswap_sdk.Common.{ℕ, Bool, true, false, Option, none, some, or_else}

-- What `server.getTransaction` answers, or that it throws.
pub data Response : Type 0 where
  answered_success answered_failed : (ledger : Option ℕ) → Response
  answered_not_found answered_other threw : Response

-- `TransactionStatus`; `unknown` is its `'ERROR'`.
pub data TransactionStatus : Type 0 where
  success : (ledger : ℕ) → TransactionStatus
  failed : (ledger : Option ℕ) → TransactionStatus
  not_found unknown : TransactionStatus

unfoldable pub get_transaction_status : Response → TransactionStatus
get_transaction_status (answered_success ledger) = success (or_else ledger 0)
get_transaction_status (answered_failed ledger) = failed ledger
get_transaction_status answered_not_found = not_found
get_transaction_status answered_other = unknown
get_transaction_status threw = unknown

pub data SubmissionErrorPolicy : Type 0 where
  retry block : SubmissionErrorPolicy

unfoldable pub should_retry_submission : TransactionStatus → SubmissionErrorPolicy → Bool
should_retry_submission (success ledger) on_error = false
should_retry_submission (failed ledger) on_error = false
should_retry_submission not_found on_error = true
should_retry_submission unknown retry = true
should_retry_submission unknown block = false
