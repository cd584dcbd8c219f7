-- ===== src/Polling.antt =====
-- src/utils/polling.ts: polling for the confirmation of a transaction. What the RPC answers at each attempt,
-- and when the signal is aborted, is a parameter; intervals and the factor are whole numbers.
pub mod Endings
mod Tests
use Prim.Native.Nat.{min}
use coralswap_sdk.Common.{
  ℕ, zero, suc, ◌*◌, leb, if◌then◌else◌, Bool, true, false, Option, none, some, or_else, List, [],
  ◌∷◌,
}
use coralswap_sdk.Submission.{
  Response, answered_success, answered_failed, answered_not_found, answered_other, threw,
}

pub data PollingStrategy : Type 0 where
  linear exponential : PollingStrategy

pub record PollingOptions : Type 0 where
  pub strategy : Option PollingStrategy
  pub interval : Option ℕ
  pub max_attempts : Option ℕ
  pub backoff_factor : Option ℕ
  pub max_interval : Option ℕ

-- The answer at attempt `i`, and whether the signal is aborted before it, after an error of it, and in the
-- delay that follows it.
pub record World : Type 0 where
  pub answer : ℕ → Response
  pub aborted_before : ℕ → Bool
  pub aborted_after_error : ℕ → Bool
  pub aborted_in_delay : ℕ → Bool

-- The `Result`: a success with its ledger, or the code of the error.
pub data Ending : Type 0 where
  confirmed : (ledger : ℕ) → Ending
  tx_failed tx_not_confirmed tx_timeout : Ending
  aborted : (attempt : ℕ) → Ending

-- The ending, how often `getTransaction` was called, and the delays.
pub record Report : Type 0 where
  pub ending : Ending
  pub polls : ℕ
  pub delays : List ℕ

pub data LastOutcome : Type 0 where
  nothing seen_not_found rpc_error : LastOutcome

-- The variables of the loop.
pub record State : Type 0 where
  pub current_interval : ℕ
  pub last_outcome : LastOutcome
  pub consecutive_rpc_errors : ℕ

abbrev pub finish_code : LastOutcome → Ending
finish_code nothing = tx_timeout
finish_code seen_not_found = tx_not_confirmed
finish_code rpc_error = tx_timeout

abbrev pub report : Ending → ℕ → Report
report ending polls = record { ending = ending; polls = polls; delays = [] }

abbrev pub polled_before : ℕ → Report → Report
polled_before delay later = record later { polls = suc later.polls; delays = delay ∷ later.delays }

abbrev pub next_interval : PollingStrategy → (interval factor max_interval : ℕ) → ℕ
next_interval linear interval factor max_interval = interval
next_interval exponential interval factor max_interval = min (interval * factor) max_interval

module _ (options : PollingOptions) (w : World) where
  abbrev pub advance : State → State
  advance s = record s {
    current_interval =
        next_interval (or_else options.strategy linear) s.current_interval
          (or_else options.backoff_factor 2) (or_else options.max_interval 10_000);
  }

  -- The end of an attempt that decided nothing, with `left` attempts after it; `later` is the rest.
  abbrev pub wait_and_go_on : Bool → (left attempt : ℕ) → State → (State → Report) → Report
  wait_and_go_on in_delay zero attempt s later = report (finish_code s.last_outcome) 1
  wait_and_go_on true (suc left) attempt s later = report (aborted attempt) 1
  wait_and_go_on false (suc left) attempt s later =
      polled_before s.current_interval (later (advance s))

  -- The third error in a row breaks off the loop.
  abbrev pub after_error : (too_many is_aborted : Bool) → ℕ → Report → Report
  after_error false is_aborted attempt go_on = go_on
  after_error true true attempt go_on = report (aborted attempt) 1
  after_error true false attempt go_on = report (finish_code rpc_error) 1

  abbrev pub by_answer : Response → (left attempt : ℕ) → State → (State → Report) → Report
  by_answer (answered_success ledger) left attempt s later = report (confirmed (or_else ledger 0)) 1
  by_answer (answered_failed ledger) left attempt s later = report tx_failed 1
  by_answer answered_not_found left attempt s later =
      wait_and_go_on (w.aborted_in_delay attempt) left attempt
        (record s { last_outcome = seen_not_found; consecutive_rpc_errors = 0 }) later
  by_answer answered_other left attempt s later =
      wait_and_go_on (w.aborted_in_delay attempt) left attempt
        (record s { consecutive_rpc_errors = 0 }) later
  by_answer threw left attempt s later =
      after_error (leb 3 (suc s.consecutive_rpc_errors)) (w.aborted_after_error attempt) attempt (
        wait_and_go_on (w.aborted_in_delay attempt) left attempt
          (record s {
            last_outcome = rpc_error;
            consecutive_rpc_errors = suc s.consecutive_rpc_errors;
          })
          later)

  abbrev pub unless_aborted : Bool → ℕ → Report → Report
  unless_aborted true attempt rest = report (aborted attempt) 0
  unless_aborted false attempt rest = rest

  -- The loop, with `left` attempts to go.
  unfoldable pub poll_from : (left attempt : ℕ) → State → Report
  poll_from zero attempt s = report (finish_code s.last_outcome) 0
  poll_from (suc left) attempt s =
      unless_aborted (w.aborted_before attempt) attempt
        (by_answer (w.answer attempt) left attempt s (poll_from left (suc attempt)))

  unfoldable pub poll : Report
  poll = poll_from (or_else options.max_attempts 30) 1 (record {
    current_interval = or_else options.interval 1000;
    last_outcome = nothing;
    consecutive_rpc_errors = 0;
  })
