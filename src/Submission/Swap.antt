-- ===== src/Submission/Swap.antt =====
-- `SwapModule.submitSwapWithIdempotentResubmission` of src/modules/swap.ts. Every submission and every
-- lookup is a parameter: what they answer at each attempt.
use coralswap_sdk.Common.{
  ℕ, zero, suc, Bool, true, false, Option, none, some, Result, ok, err, transaction, ℤ,
}
use coralswap_sdk.Swap.Quote.{SwapQuote}
use coralswap_sdk.Submission.{
  Response, TransactionStatus, success, failed, not_found, unknown, get_transaction_status, block,
  should_retry_submission,
}

pub record SwapResult : Type 0 where
  pub tx_hash : ℕ
  pub amount_in : ℤ
  pub amount_out : ℤ
  pub fee_paid : ℤ
  pub ledger : ℕ
  pub timestamp : ℕ

-- The `Result` of `client.submitTransaction`: confirmed, or an error with or without a hash.
pub data Submitted : Type 0 where
  confirmed : (tx_hash ledger : ℕ) → Submitted
  lost : (tx_hash : Option ℕ) → Submitted

-- `Date.now()` in seconds, what attempt `i` answers, and what the chain says of its hash afterwards.
pub record World : Type 0 where
  pub now : ℕ
  pub submit : ℕ → Submitted
  pub lookup : ℕ → Response

abbrev pub to_swap_result : SwapQuote → (tx_hash ledger now : ℕ) → SwapResult
to_swap_result quote tx_hash ledger now = record {
  tx_hash = tx_hash;
  amount_in = quote.amount_in;
  amount_out = quote.amount_out;
  fee_paid = quote.fee_amount;
  ledger = ledger;
  timestamp = now;
}

-- `IDEMPOTENT_RETRY_CONFIG.maxRetries`
abbrev pub max_retries : ℕ
max_retries = 2

-- How the call ended, and the submissions it made.
pub record Sent : Type 0 where
  pub outcome : Result SwapResult
  pub submissions : ℕ

abbrev pub stop : Result SwapResult → Sent
stop outcome = record { outcome = outcome; submissions = 1 }

abbrev pub once_more : Sent → Sent
once_more later = record later { submissions = suc later.submissions }

-- `!decision.shouldRetry || attempt >= maxRetries`, with `left` retries to go.
abbrev pub again_or_stop : Bool → ℕ → Sent → Sent
again_or_stop false left later = stop (err transaction)
again_or_stop true zero later = stop (err transaction)
again_or_stop true (suc left) later = once_more later

module _ (quote : SwapQuote) (w : World) where
  abbrev pub by_status : TransactionStatus → ℕ → ℕ → Sent → Sent
  by_status (success ledger) tx_hash left later =
      stop (ok (to_swap_result quote tx_hash ledger w.now))
  by_status (failed ledger) tx_hash left later =
      again_or_stop (should_retry_submission (failed ledger) block) left later
  by_status not_found tx_hash left later =
      again_or_stop (should_retry_submission not_found block) left later
  by_status unknown tx_hash left later =
      again_or_stop (should_retry_submission unknown block) left later

  -- One attempt; `later` is what the attempts after it do.
  abbrev pub attempt_submission : Submitted → TransactionStatus → ℕ → Sent → Sent
  attempt_submission (confirmed tx_hash ledger) status left later =
      stop (ok (to_swap_result quote tx_hash ledger w.now))
  attempt_submission (lost none) status left later = stop (err transaction)
  attempt_submission (lost (some tx_hash)) status left later = by_status status tx_hash left later

  -- The loop, with `left` retries to go at attempt `attempt`.
  unfoldable pub submit_from : ℕ → ℕ → Sent
  submit_from zero attempt =
      attempt_submission (w.submit attempt) (get_transaction_status (w.lookup attempt)) zero
        (stop (err transaction))
  submit_from (suc left) attempt =
      let later = submit_from left (suc attempt) in
      attempt_submission (w.submit attempt) (get_transaction_status (w.lookup attempt)) (suc left)
        later

  unfoldable pub submit_swap_with_idempotent_resubmission : Sent
  submit_swap_with_idempotent_resubmission = submit_from max_retries 0
