-- ===== src/Polling/Endings.antt =====
-- How a `poll` of src/utils/polling.ts ends.
use mathlib.Core.Path.{subst}
use coralswap_sdk.Common.{
  ℕ, zero, suc, ◌+◌, ◌≤◌, ◌<◌, ◌≡◌, ◌⊎◌, inl, inr, refl, ap, arith, leb, leb→le, Bool, true, false,
  Option, or_else,
}
use coralswap_sdk.Common.Attempts.{Every, at_start, at_next, Every-nil, Every-cons}
use coralswap_sdk.Submission.{
  Response, answered_success, answered_failed, answered_not_found, answered_other, threw,
}
use coralswap_sdk.Polling.{
  PollingOptions, World, Ending, confirmed, tx_failed, tx_not_confirmed, tx_timeout, aborted,
  Report, LastOutcome, nothing, seen_not_found, rpc_error, State, finish_code, advance,
  wait_and_go_on, after_error, by_answer, unless_aborted, poll_from, poll,
}

abbrev pub is_final : Response → Bool
is_final (answered_success ledger) = true
is_final (answered_failed ledger) = true
is_final answered_not_found = false
is_final answered_other = false
is_final threw = false

module _ (options : PollingOptions) (w : World) where
  abbrev pub Pending : ℕ → Type 0
  Pending i = is_final (w.answer i) ≡ false

  abbrev pub Aborted : ℕ → Type 0
  Aborted i =
      (w.aborted_before i ≡ true) ⊎ (w.aborted_after_error i ≡ true) ⊎ (w.aborted_in_delay i ≡ true)

  -- The `n` attempts before attempt `attempt` were errors of the RPC.
  abbrev pub Errors : (attempt n : ℕ) → Type 0
  Errors attempt n = (i j : ℕ) → i < n → j + suc i ≡ attempt → w.answer j ≡ threw

  abbrev pub Explained : (left attempt : ℕ) → Ending → ℕ → Type 0
  Explained left attempt (confirmed ledger) polls =
      (n : ℕ) × (polls ≡ suc n)
      × (n < left)
      × Every Pending attempt n
      × ((given : Option ℕ) × (w.answer (attempt + n) ≡ answered_success given)
          × (or_else given 0 ≡ ledger))
  Explained left attempt tx_failed polls =
      (n : ℕ) × (polls ≡ suc n)
      × (n < left)
      × Every Pending attempt n
      × ((given : Option ℕ) × (w.answer (attempt + n) ≡ answered_failed given))
  Explained left attempt tx_not_confirmed polls = (polls ≡ left) × Every Pending attempt polls
  Explained left attempt tx_timeout polls =
      (polls ≤ left) × Every Pending attempt polls × ((polls ≡ left) ⊎ Errors (attempt + polls) 3)
  Explained left attempt (aborted i) polls =
      (polls ≤ left) × Every Pending attempt polls × Aborted i

  later-Explained :
      (left attempt : ℕ) (e : Ending) (polls : ℕ)
      → Pending attempt
      → Explained left (suc attempt) e polls
      → Explained (suc left) attempt e (suc polls)
  later-Explained left attempt (confirmed ledger) polls p
        (n, same, few, before, (given, found, led)) =
      (
        suc n,
        ap suc same,
        omega arith,
        Every-cons Pending attempt n p before,
        (given, at_next (λ k. w.answer k ≡ answered_success given) attempt n found, led),
      )
  later-Explained left attempt tx_failed polls p (n, same, few, before, (given, found)) = (
    suc n,
    ap suc same,
    omega arith,
    Every-cons Pending attempt n p before,
    (given, at_next (λ k. w.answer k ≡ answered_failed given) attempt n found),
  )
  later-Explained left attempt tx_not_confirmed polls p (all, before) =
      (ap suc all, Every-cons Pending attempt polls p before)
  later-Explained left attempt tx_timeout polls p (few, before, inl all) =
      (omega arith, Every-cons Pending attempt polls p before, inl (ap suc all))
  later-Explained left attempt tx_timeout polls p (few, before, inr errors) = (
    omega arith,
    Every-cons Pending attempt polls p before,
    inr (at_next (λ k. Errors k 3) attempt polls errors),
  )
  later-Explained left attempt (aborted i) polls p (few, before, why) =
      (omega arith, Every-cons Pending attempt polls p before, why)

  abbrev Fine : (left attempt : ℕ) → Report → Type 0
  Fine left attempt r = Explained left attempt r.ending r.polls

  -- The last attempt, and it decided nothing.
  finish-Explained :
      (attempt : ℕ) (last : LastOutcome)
      → Pending attempt
      → Explained 1 attempt (finish_code last) 1
  finish-Explained attempt nothing p =
      (omega arith, Every-cons Pending attempt 0 p (Every-nil Pending _), inl refl)
  finish-Explained attempt rpc_error p =
      (omega arith, Every-cons Pending attempt 0 p (Every-nil Pending _), inl refl)
  finish-Explained attempt seen_not_found p =
      (refl, Every-cons Pending attempt 0 p (Every-nil Pending _))

  -- What is known of the attempts that remain, from any state that counts the errors before them rightly.
  abbrev Rest : (left attempt : ℕ) → (State → Report) → Type 0
  Rest left attempt later =
      (s : State)
      → Errors (suc attempt) s.consecutive_rpc_errors
      → Fine left (suc attempt) (later s)

  wait-Explained :
      (in_delay : Bool) (left attempt : ℕ) (s : State) (later : State → Report)
      → w.aborted_in_delay attempt ≡ in_delay
      → Pending attempt
      → Errors (suc attempt) s.consecutive_rpc_errors
      → Rest left attempt later
      → Fine (suc left) attempt (wait_and_go_on options w in_delay left attempt s later)
  wait-Explained in_delay zero attempt s later d p e x = finish-Explained attempt s.last_outcome p
  wait-Explained true (suc left) attempt s later d p e x =
      (omega arith, Every-cons Pending attempt 0 p (Every-nil Pending _), inr (inr d))
  wait-Explained false (suc left) attempt s later d p e x =
      later-Explained (suc left) attempt _ _ p (x (advance options w s) e)

  Errors-more :
      (attempt n : ℕ) → w.answer attempt ≡ threw → Errors attempt n → Errors (suc attempt) (suc n)
  Errors-more attempt n e before zero j h same = subst (λ k. w.answer k ≡ threw) (omega arith) e
  Errors-more attempt n e before (suc i) j h same = before i j (omega arith) (omega arith)

  error-Explained :
      (too_many is_aborted : Bool) (left attempt n : ℕ) (go_on : Report)
      → leb 3 (suc n) ≡ too_many
      → w.aborted_after_error attempt ≡ is_aborted
      → Pending attempt
      → Errors (suc attempt) (suc n)
      → Fine (suc left) attempt go_on
      → Fine (suc left) attempt (after_error options w too_many is_aborted attempt go_on)
  error-Explained false is_aborted left attempt n go_on many a p e x = x
  error-Explained true true left attempt n go_on many a p e x =
      (omega arith, Every-cons Pending attempt 0 p (Every-nil Pending _), inr (inl a))
  error-Explained true false left attempt n go_on many a p e x = (
    omega arith,
    Every-cons Pending attempt 0 p (Every-nil Pending _),
    inr (λ i j h same. e i j (omega (arith, leb→le 3 (suc n) many)) (omega arith)),
  )

  Errors-nil : (attempt : ℕ) → Errors attempt 0
  Errors-nil attempt i j h same = elim h [ ]

  answer-Explained :
      (r : Response) (left attempt : ℕ) (s : State) (later : State → Report)
      → w.answer attempt ≡ r
      → Errors attempt s.consecutive_rpc_errors
      → Rest left attempt later
      → Fine (suc left) attempt (by_answer options w r left attempt s later)
  answer-Explained (answered_success given) left attempt s later a e x = (
    0,
    refl,
    omega arith,
    Every-nil Pending attempt,
    (given, at_start (λ k. w.answer k ≡ answered_success given) attempt a, refl),
  )
  answer-Explained (answered_failed given) left attempt s later a e x = (
    0,
    refl,
    omega arith,
    Every-nil Pending attempt,
    (given, at_start (λ k. w.answer k ≡ answered_failed given) attempt a),
  )
  answer-Explained answered_not_found left attempt s later a e x =
      wait-Explained _ left attempt _ later refl (ap is_final a) (Errors-nil (suc attempt)) x
  answer-Explained answered_other left attempt s later a e x =
      wait-Explained _ left attempt _ later refl (ap is_final a) (Errors-nil (suc attempt)) x
  answer-Explained threw left attempt s later a e x =
      let more = Errors-more attempt s.consecutive_rpc_errors a e in
      error-Explained _ _ left attempt s.consecutive_rpc_errors _ refl refl (ap is_final a) more
        (wait-Explained _ left attempt _ later refl (ap is_final a) more x)

  unless-Explained :
      (is_aborted : Bool) (left attempt : ℕ) (rest : Report)
      → w.aborted_before attempt ≡ is_aborted
      → Fine (suc left) attempt rest
      → Fine (suc left) attempt (unless_aborted options w is_aborted attempt rest)
  unless-Explained true left attempt rest a x = (omega arith, Every-nil Pending attempt, inl a)
  unless-Explained false left attempt rest a x = x

  -- No attempt is left; the loop was never entered unless the attempts before say so.
  none_left-Explained :
      (attempt : ℕ) (last : LastOutcome) → Explained 0 attempt (finish_code last) 0
  none_left-Explained attempt nothing = (omega arith, Every-nil Pending attempt, inl refl)
  none_left-Explained attempt rpc_error = (omega arith, Every-nil Pending attempt, inl refl)
  none_left-Explained attempt seen_not_found = (refl, Every-nil Pending attempt)

  poll_from-Explained :
      (left attempt : ℕ) (s : State)
      → Errors attempt s.consecutive_rpc_errors
      → Fine left attempt (poll_from options w left attempt s)
  unfolding poll_from
  poll_from-Explained zero attempt s e = none_left-Explained attempt s.last_outcome
  poll_from-Explained (suc left) attempt s e = unless-Explained _ left attempt _ refl (
      answer-Explained _ left attempt s (poll_from options w left (suc attempt)) refl e
        (λ s' e'. poll_from-Explained left (suc attempt) s' e'))

  -- `poll` calls the RPC at most `maxAttempts` times, and every answer but the last is neither a success
  -- nor a failure. It reports a success, with its ledger, or a failure exactly as the last answer has it;
  -- `TX_NOT_CONFIRMED` only after all the attempts; `TX_TIMEOUT` only after all the attempts, or where the
  -- last three answers were errors of the RPC; and that it was aborted only where the signal was.
  pub poll-Explained :
      let r = poll options w in Explained (or_else options.max_attempts 30) 1 r.ending r.polls
  unfolding poll
  poll-Explained = poll_from-Explained (or_else options.max_attempts 30) 1 _ (Errors-nil 1)
