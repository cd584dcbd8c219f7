-- ===== src/LimitOrders/Settled.antt =====
-- What the submissions of src/modules/limit-orders.ts rest on: the answer of the network, or what is read of the
-- contract.
use mathlib.Core.Path.{subst}
use coralswap_sdk.Common.{
  ℕ, suc, ◌+◌, ◌≤◌, ◌<◌, ◌≡◌, ◌⊎◌, inl, inr, refl, ap, arith, Bool, true, false, Option, none, some,
  List, Result, ok, err, SdkError, transaction,
}
use coralswap_sdk.Submission.{
  TransactionStatus, success, failed, not_found, unknown, get_transaction_status,
  should_retry_submission,
}
use coralswap_sdk.LimitOrders.Resubmit.{
  confirmed, rejected, SubmissionOutcome, landed, not_landed, failed_on_chain, by_contract,
  classify_failed_submission, submit_with_idempotent_resubmission,
}
use coralswap_sdk.LimitOrders.Once.{Classified, Ended, submit_order-Ended}
use coralswap_sdk.LimitOrders.Build.{Operation, Node, Chain}
use coralswap_sdk.LimitOrders.Orders.{attempts_of}

said_no : (said : Result Bool) → by_contract said ≡ ok not_landed → said ≡ ok false
said_no (ok true) e = cc
said_no (ok false) e = refl
said_no (err thrown) e = cc

said_yes : (said : Result Bool) → by_contract said ≡ ok landed → said ≡ ok true
said_yes (ok true) e = refl
said_yes (ok false) e = cc
said_yes (err thrown) e = cc

said_neither : (said : Result Bool) → by_contract said ≡ ok failed_on_chain → ⊥
said_neither (ok true) e = cc
said_neither (ok false) e = cc
said_neither (err thrown) e = cc

threw : (said : Result Bool) (thrown : SdkError) → by_contract said ≡ err thrown → said ≡ err thrown
threw (ok true) thrown e = cc
threw (ok false) thrown e = cc
threw (err t) thrown e = ap err cc

-- What the status of a hash says of the submission.
abbrev pub Means : Result SubmissionOutcome → TransactionStatus → Type 0
Means (ok landed) status = (ledger : ℕ) × (status ≡ success ledger)
Means (ok not_landed) status = status ≡ not_found
Means (ok failed_on_chain) status =
    ((ledger : Option ℕ) × (status ≡ failed ledger)) ⊎ (status ≡ unknown)
Means (err thrown) status = ⊥

hash-Means :
    (h : ℕ) (status : TransactionStatus) (said : Result Bool)
    → Means (classify_failed_submission (some h) status said) status
unfolding classify_failed_submission should_retry_submission
hash-Means h (success ledger) said = (ledger, refl)
hash-Means h (failed ledger) said = inl (ledger, refl)
hash-Means h not_found said = refl
hash-Means h unknown said = inr refl

-- The submissions of operations `ops`, where `has_landed` reads the contract at a node. `Yes` and `No` are what it
-- has read where it says yes and no.
module _ (c : Chain) (ops : List Operation) (has_landed : Node → Result Bool)
    (Yes No : Node → Type 0) where
  abbrev status_after : ℕ → TransactionStatus
  status_after i = get_transaction_status (c.lookup i)

  -- Submission `i` was rejected with a hash of which the status says `o`.
  abbrev pub ByHash : SubmissionOutcome → ℕ → Type 0
  ByHash o i =
      (h : ℕ) × (retryable : Bool) × (c.submit ops i ≡ rejected (some h) retryable)
      × Means (ok o) (status_after i)

  -- It was rejected without a hash by a retryable error.
  abbrev pub NoHash : ℕ → Type 0
  NoHash i = c.submit ops i ≡ rejected none true

  abbrev pub NotLanded : ℕ → Type 0
  NotLanded i = ByHash not_landed i ⊎ (NoHash i × No (c.node_after i))

  abbrev pub Landed : ℕ → Type 0
  Landed i = ByHash landed i ⊎ (NoHash i × Yes (c.node_after i))

  -- How the submissions end at submission `last`.
  abbrev pub Settles : Result (Option ℕ) → (last : ℕ) → Type 0
  Settles (ok (some h)) last = c.submit ops last ≡ confirmed h
  Settles (ok none) last = Landed last
  Settles (err thrown) last =
      ((thrown ≡ transaction)
        × ((c.submit ops last ≡ rejected none false)
            ⊎ (ByHash failed_on_chain last ⊎ (NotLanded last × (last ≡ 2)))))
      ⊎ (NoHash last × (has_landed (c.node_after last) ≡ err thrown))

  -- At most three submissions, each of which but the last is known not to have landed.
  abbrev pub Sends : Result (Option ℕ) → (submissions : ℕ) → Type 0
  Sends outcome submissions =
      (last : ℕ) × (submissions ≡ suc last)
      × (last ≤ 2)
      × ((i : ℕ) → i < last → NotLanded i)
      × Settles outcome last

  module _ (reads_yes : (n : Node) → has_landed n ≡ ok true → Yes n)
      (reads_no : (n : Node) → has_landed n ≡ ok false → No n) where
    not_landed-NotLanded :
        (i : ℕ) → Classified (attempts_of c ops has_landed) (ok not_landed) i → NotLanded i
    unfolding classify_failed_submission
    not_landed-NotLanded i (none, true, did, sent, e) =
        inr (did, reads_no (c.node_after i) (said_no (has_landed (c.node_after i)) e))
    not_landed-NotLanded i (none, false, did, sent, e) = cc
    not_landed-NotLanded i (some h, retryable, did, sent, e) = inl (
      h,
      retryable,
      did,
      subst (λ (o : Result SubmissionOutcome). Means o (status_after i)) e
          (hash-Means h (status_after i) (has_landed (c.node_after i))),
    )

    landed-Landed : (i : ℕ) → Classified (attempts_of c ops has_landed) (ok landed) i → Landed i
    unfolding classify_failed_submission
    landed-Landed i (none, true, did, sent, e) =
        inr (did, reads_yes (c.node_after i) (said_yes (has_landed (c.node_after i)) e))
    landed-Landed i (none, false, did, sent, e) = cc
    landed-Landed i (some h, retryable, did, sent, e) = inl (
      h,
      retryable,
      did,
      subst (λ (o : Result SubmissionOutcome). Means o (status_after i)) e
          (hash-Means h (status_after i) (has_landed (c.node_after i))),
    )

    failed-ByHash :
        (i : ℕ)
        → Classified (attempts_of c ops has_landed) (ok failed_on_chain) i
        → ByHash failed_on_chain i
    unfolding classify_failed_submission
    failed-ByHash i (none, retryable, did, sent, e) =
        absurd (said_neither (has_landed (c.node_after i)) e)
    failed-ByHash i (some h, retryable, did, sent, e) = (
      h,
      retryable,
      did,
      subst (λ (o : Result SubmissionOutcome). Means o (status_after i)) e
          (hash-Means h (status_after i) (has_landed (c.node_after i))),
    )

    thrown-NoHash :
        (i : ℕ) (thrown : SdkError)
        → Classified (attempts_of c ops has_landed) (err thrown) i
        → NoHash i × (has_landed (c.node_after i) ≡ err thrown)
    unfolding classify_failed_submission
    thrown-NoHash i thrown (none, true, did, sent, e) =
        (did, threw (has_landed (c.node_after i)) thrown e)
    thrown-NoHash i thrown (none, false, did, sent, e) = cc
    thrown-NoHash i thrown (some h, retryable, did, sent, e) = absurd (
        subst (λ (o : Result SubmissionOutcome). Means o (status_after i)) e
          (hash-Means h (status_after i) (has_landed (c.node_after i))))

    Ended-Settles :
        (o : Result (Option ℕ)) (rest last : ℕ)
        → rest + last ≡ 2
        → Ended (attempts_of c ops has_landed) o rest last
        → Settles o last
    Ended-Settles (ok (some h)) rest last sum e = e
    Ended-Settles (ok none) rest last sum e = landed-Landed last e
    Ended-Settles (err thrown) rest last sum (inl (t, inl never)) = inl (t, inl never)
    Ended-Settles (err thrown) rest last sum (inl (t, inr (inl f))) =
        inl (t, inr (inl (failed-ByHash last f)))
    Ended-Settles (err thrown) rest last sum (inl (t, inr (inr (n, none_left)))) =
        inl (t, inr (inr (not_landed-NotLanded last n, omega (arith, none_left, sum))))
    Ended-Settles (err thrown) rest last sum (inr t) = inr (thrown-NoHash last thrown t)

    pub submit-Sends :
        let t = submit_with_idempotent_resubmission (attempts_of c ops has_landed) in
        Sends t.outcome t.submissions
    submit-Sends =
        let (last, counted, few, earlier, rest, sum, ended) =
          submit_order-Ended (attempts_of c ops has_landed) in
        (
          last,
          counted,
          few,
          λ i h. not_landed-NotLanded i (earlier i h),
          Ended-Settles _ rest last sum ended,
        )
