-- ===== src/Submission/Rebuild.antt =====
-- `submitIdempotent` of src/utils/transactionStatus.ts, which builds a new transaction for every attempt.
-- What the builder, the submission and the RPC do at each attempt is a parameter.
use coralswap_sdk.Common.{ℕ, zero, suc, Bool, true, false, Option}
use coralswap_sdk.Submission.{
  Response, answered_success, answered_failed, answered_not_found, answered_other, threw,
}

-- `TransactionStatusResult`, of the hash that attempt `attempt` built.
pub data Landed : Type 0 where
  success failed : (attempt : ℕ) (ledger : Option ℕ) → Landed
  not_found : (attempt : ℕ) → Landed

-- A value, or an exception that `isRetryable` accepts or not.
pub data Try (A : Type 0) : Type 0 where
  gives : A → Try A
  throws : (retryable : Bool) → Try A

-- Attempt `i`: whether `submit` accepts, what poll `k` answers, and what the lookup after an error does; a
-- lookup that throws does so for the reason given.
pub record World : Type 0 where
  pub submit : ℕ → Try (Unit {0})
  pub poll : ℕ → ℕ → Try Response
  pub lookup : ℕ → Try Response

-- `getTransactionStatus`: any answer but two is `"NOT_FOUND"`.
abbrev pub landed : ℕ → Response → Landed
landed attempt (answered_success ledger) = success attempt ledger
landed attempt (answered_failed ledger) = failed attempt ledger
landed attempt answered_not_found = not_found attempt
landed attempt answered_other = not_found attempt
landed attempt threw = not_found attempt

abbrev pub seen : ℕ → Try Response → Try Landed
seen attempt (gives response) = gives (landed attempt response)
seen attempt (throws retryable) = throws retryable

-- How the call ended: a status, the error of attempt `i`, or the attempts were used up.
pub data Ending : Type 0 where
  returned : Landed → Ending
  thrown : (attempt : ℕ) → Ending
  exhausted : Ending

pub record Trace : Type 0 where
  pub ending : Ending
  pub submissions : ℕ

abbrev pub stop : Ending → Trace
stop ending = record { ending = ending; submissions = 1 }

abbrev pub next : Trace → Trace
next later = record later { submissions = suc later.submissions }

module _ (w : World) where
  -- `pollUntilFinal`, with `left` polls to go; `later` is what they say.
  abbrev pub poll_step : ℕ → Try Landed → Try Landed → Try Landed
  poll_step attempt (gives (success a l)) later = gives (success a l)
  poll_step attempt (gives (failed a l)) later = gives (failed a l)
  poll_step attempt (gives (not_found a)) later = later
  poll_step attempt (throws retryable) later = throws retryable

  unfoldable pub poll_until_final : (attempt left k : ℕ) → Try Landed
  poll_until_final attempt zero k = gives (not_found attempt)
  poll_until_final attempt (suc left) k =
      poll_step attempt (seen attempt (w.poll attempt k)) (poll_until_final attempt left (suc k))

  -- The `try` block.
  abbrev pub submit_and_poll : ℕ → Try (Unit {0}) → Try Landed
  submit_and_poll attempt (gives accepted) = poll_until_final attempt 10 0
  submit_and_poll attempt (throws retryable) = throws retryable

  -- The `catch` block for an error that may be retried.
  abbrev pub after_lookup : ℕ → Try Landed → Trace → Trace
  after_lookup attempt (gives (success a l)) later = stop (returned (success a l))
  after_lookup attempt (gives (failed a l)) later = stop (returned (failed a l))
  after_lookup attempt (gives (not_found a)) later = next later
  after_lookup attempt (throws retryable) later = stop (thrown attempt)

  abbrev pub after_try : ℕ → Try Landed → Try Landed → Trace → Trace
  after_try attempt (gives status) check later = stop (returned status)
  after_try attempt (throws false) check later = stop (thrown attempt)
  after_try attempt (throws true) check later = after_lookup attempt check later

  -- The loop, with `left` attempts to go.
  unfoldable pub submit_from : ℕ → ℕ → Trace
  submit_from zero attempt = record { ending = exhausted; submissions = 0 }
  submit_from (suc left) attempt =
      after_try attempt (submit_and_poll attempt (w.submit attempt))
        (seen attempt (w.lookup attempt)) (submit_from left (suc attempt))
