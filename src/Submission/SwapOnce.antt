-- ===== src/Submission/SwapOnce.antt =====
-- When `submitSwapWithIdempotentResubmission` of src/modules/swap.ts sends a swap again, and how it ends.
use mathlib.Core.Path.{subst}
use coralswap_sdk.Common.{
  ℕ, zero, suc, ◌+◌, ◌≤◌, ◌<◌, ◌≡◌, ◌⊎◌, inl, inr, refl, ap, arith, Option, none, some, Result, ok,
  err, transaction,
}
use coralswap_sdk.Swap.Quote.{SwapQuote}
use coralswap_sdk.Submission.{
  TransactionStatus, success, failed, not_found, unknown, get_transaction_status,
  should_retry_submission,
}
use coralswap_sdk.Submission.Swap.{
  SwapResult, Submitted, confirmed, lost, World, to_swap_result, max_retries, Sent, once_more,
  attempt_submission, submit_from, submit_swap_with_idempotent_resubmission,
}

module _ (quote : SwapQuote) (w : World) where
  -- Attempt `i` was lost, and the chain has not seen its hash.
  abbrev pub Unseen : ℕ → Type 0
  Unseen i =
      (h : ℕ) × (w.submit i ≡ lost (some h)) × (get_transaction_status (w.lookup i) ≡ not_found)

  -- Attempt `i` was confirmed, or the chain says that it succeeded, with the hash and ledger of `r`.
  abbrev pub Confirmed : SwapResult → ℕ → Type 0
  Confirmed r i =
      (h : ℕ) × (l : ℕ) × (r ≡ to_swap_result quote h l w.now)
      × ((w.submit i ≡ confirmed h l)
          ⊎ ((w.submit i ≡ lost (some h)) × (get_transaction_status (w.lookup i) ≡ success l)))

  -- Attempt `i` was lost without a hash, or the chain says neither that it succeeded nor that it is unseen.
  abbrev pub Stuck : ℕ → Type 0
  Stuck i =
      (w.submit i ≡ lost none)
      ⊎ ((h : ℕ) × (w.submit i ≡ lost (some h))
          × (((l : Option ℕ) × (get_transaction_status (w.lookup i) ≡ failed l))
              ⊎ (get_transaction_status (w.lookup i) ≡ unknown)))

  abbrev pub Settled : (left attempt last : ℕ) → Result SwapResult → Type 0
  Settled left attempt last (ok r) = Confirmed r (attempt + last)
  Settled left attempt last (err thrown) =
      (thrown ≡ transaction) × (Stuck (attempt + last) ⊎ (Unseen (attempt + last) × (last ≡ left)))

  record Explained (left attempt : ℕ) (t : Sent) : Type 0 where
    last : ℕ
    counted : t.submissions ≡ suc last
    few : last ≤ left
    unseen : (i : ℕ) → i < last → Unseen (attempt + i)
    settled : Settled left attempt last t.outcome

  start : (attempt : ℕ) → attempt ≡ attempt + 0
  start attempt = omega arith

  zero_add : (i : ℕ) → 0 + i ≡ i
  zero_add i = omega arith

  shift : (attempt n : ℕ) → suc attempt + n ≡ attempt + suc n
  shift attempt n = omega arith

  Settled-shift :
      (left attempt last : ℕ) (o : Result SwapResult)
      → Settled left (suc attempt) last o
      → Settled (suc left) attempt (suc last) o
  Settled-shift left attempt last (ok r) s = subst (Confirmed r) (shift attempt last) s
  Settled-shift left attempt last (err thrown) (e, inl stuck) =
      (e, inl (subst Stuck (shift attempt last) stuck))
  Settled-shift left attempt last (err thrown) (e, inr (u, same)) =
      (e, inr (subst Unseen (shift attempt last) u, ap suc same))

  Unseen-cons :
      (attempt last : ℕ)
      → Unseen attempt
      → ((i : ℕ) → i < last → Unseen (suc attempt + i))
      → (i : ℕ) → i < suc last
      → Unseen (attempt + i)
  Unseen-cons attempt last u rest zero h = subst Unseen (start attempt) u
  Unseen-cons attempt last u rest (suc i) h = subst Unseen (shift attempt i) (rest i (omega arith))

  stopped :
      (left attempt : ℕ) (o : Result SwapResult)
      → Settled left attempt 0 o
      → Explained left attempt (record { outcome = o; submissions = 1 })
  stopped left attempt o s = record {
    last = 0;
    counted = refl;
    few = omega arith;
    unseen = λ i h. elim h [ ];
    settled = s;
  }

  sent_again :
      (left attempt : ℕ) (later : Sent)
      → Unseen attempt
      → Explained left (suc attempt) later
      → Explained (suc left) attempt (once_more later)
  sent_again left attempt later u x = record {
    last = suc x.last;
    counted = ap suc x.counted;
    few = omega (arith, x.few);
    unseen = Unseen-cons attempt x.last u x.unseen;
    settled = Settled-shift left attempt x.last later.outcome x.settled;
  }

  -- What the attempts after this one do, where there are any.
  abbrev Later : ℕ → ℕ → Sent → Type 0
  Later zero attempt later = Unit
  Later (suc left) attempt later = Explained left (suc attempt) later

  attempt-Explained :
      (left attempt : ℕ) (q : Submitted) (status : TransactionStatus) (later : Sent)
      → w.submit attempt ≡ q
      → get_transaction_status (w.lookup attempt) ≡ status
      → Later left attempt later
      → Explained left attempt (attempt_submission quote w q status left later)
  unfolding should_retry_submission
  attempt-Explained left attempt (confirmed h l) status later did seen x =
      stopped left attempt _
        (subst (Confirmed (to_swap_result quote h l w.now)) (start attempt) (h, l, refl, inl did))
  attempt-Explained left attempt (lost none) status later did seen x =
      stopped left attempt _ (refl, inl (subst Stuck (start attempt) (inl did)))
  attempt-Explained left attempt (lost (some h)) (success l) later did seen x =
      stopped left attempt _ (
        subst (Confirmed (to_swap_result quote h l w.now)) (start attempt)
          (h, l, refl, inr (did, seen)))
  attempt-Explained left attempt (lost (some h)) (failed l) later did seen x =
      stopped left attempt _ (refl, inl (subst Stuck (start attempt) (inr (h, did, inl (l, seen)))))
  attempt-Explained left attempt (lost (some h)) unknown later did seen x =
      stopped left attempt _ (refl, inl (subst Stuck (start attempt) (inr (h, did, inr seen))))
  attempt-Explained zero attempt (lost (some h)) not_found later did seen x =
      stopped zero attempt _ (refl, inr (subst Unseen (start attempt) (h, did, seen), refl))
  attempt-Explained (suc left) attempt (lost (some h)) not_found later did seen x =
      sent_again left attempt later (h, did, seen) x

  submit_from-Explained :
      (left attempt : ℕ) → Explained left attempt (submit_from quote w left attempt)
  unfolding submit_from
  submit_from-Explained zero attempt =
      attempt-Explained zero attempt (w.submit attempt) (get_transaction_status (w.lookup attempt))
        _ refl refl tt
  submit_from-Explained (suc left) attempt =
      attempt-Explained (suc left) attempt (w.submit attempt)
        (get_transaction_status (w.lookup attempt)) _ refl refl
        (submit_from-Explained left (suc attempt))

  -- A swap is submitted at most three times; every submission but the last was lost and the chain had not
  -- seen its hash. A swap result carries the hash and the ledger of the last one, which was confirmed at
  -- once or by the chain. The only error is a `TransactionError`, where the last one was lost without a
  -- hash, failed on the chain or has an unknown status, or where the third is still unseen.
  pub submit_swap-Settled :
      let t = submit_swap_with_idempotent_resubmission quote w in
      (last : ℕ) × (t.submissions ≡ suc last)
      × (last ≤ max_retries)
      × ((i : ℕ) → i < last → Unseen i)
      × Settled max_retries 0 last t.outcome
  unfolding submit_swap_with_idempotent_resubmission
  submit_swap-Settled =
      let x = submit_from-Explained max_retries 0 in
      (x.last, x.counted, x.few, λ i h. subst Unseen (zero_add i) (x.unseen i h), x.settled)
