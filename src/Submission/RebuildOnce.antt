-- ===== src/Submission/RebuildOnce.antt =====
-- When `submitIdempotent` of src/utils/transactionStatus.ts builds another transaction, and how it ends.
use coralswap_sdk.Common.{
  ℕ, zero, suc, ◌+◌, ◌≤◌, ◌≡◌, ◌⊎◌, inl, inr, refl, ap, arith, Bool, true, false,
}
use coralswap_sdk.Common.Attempts.{Every, at_start, at_next, Every-nil, Every-cons}
use coralswap_sdk.Submission.Rebuild.{
  Landed, success, failed, not_found, Try, gives, throws, World, seen, Ending, returned, thrown,
  exhausted, Trace, next, submit_and_poll, after_try, submit_from, poll_until_final,
}

module _ (w : World) where
  abbrev tried : ℕ → Try Landed
  tried i = submit_and_poll w i (w.submit i)

  -- Attempt `i` ended in an error that may be retried, and the chain had not seen its hash.
  abbrev pub Unseen : ℕ → Type 0
  Unseen i = (tried i ≡ throws true) × ((a : ℕ) × (seen i (w.lookup i) ≡ gives (not_found a)))

  -- The status is what the polls of attempt `i` gave, or what the chain said after an error.
  abbrev pub Found : Landed → ℕ → Type 0
  Found status i =
      (tried i ≡ gives status) ⊎ ((tried i ≡ throws true) × (seen i (w.lookup i) ≡ gives status))

  -- Attempt `i` ended in an error that may not be retried, or the lookup itself failed.
  abbrev pub Broken : ℕ → Type 0
  Broken i =
      (tried i ≡ throws false)
      ⊎ ((tried i ≡ throws true) × ((r : Bool) × (seen i (w.lookup i) ≡ throws r)))

  abbrev pub Explained : (left attempt : ℕ) → Ending → ℕ → Type 0
  Explained left attempt (returned status) n =
      (last : ℕ) × (n ≡ suc last)
      × (n ≤ left)
      × Every Unseen attempt last
      × Found status (attempt + last)
  Explained left attempt (thrown i) n =
      (last : ℕ) × (n ≡ suc last) × (n ≤ left) × Every Unseen attempt last × Broken (attempt + last)
  Explained left attempt exhausted n = (n ≡ left) × Every Unseen attempt n

  next-Explained :
      (left attempt : ℕ) (e : Ending) (n : ℕ)
      → Unseen attempt
      → Explained left (suc attempt) e n
      → Explained (suc left) attempt e (suc n)
  next-Explained left attempt (returned status) n u (last, same, few, before, found) = (
    suc last,
    ap suc same,
    omega arith,
    Every-cons Unseen attempt last u before,
    at_next (Found status) attempt last found,
  )
  next-Explained left attempt (thrown i) n u (last, same, few, before, broken) = (
    suc last,
    ap suc same,
    omega arith,
    Every-cons Unseen attempt last u before,
    at_next Broken attempt last broken,
  )
  next-Explained left attempt exhausted n u (all, before) =
      (ap suc all, Every-cons Unseen attempt n u before)

  try-Explained :
      (left attempt : ℕ) (did check : Try Landed) (later : Trace)
      → tried attempt ≡ did
      → seen attempt (w.lookup attempt) ≡ check
      → Explained left (suc attempt) later.ending later.submissions
      → let t = after_try w attempt did check later in
        Explained (suc left) attempt t.ending t.submissions
  try-Explained left attempt (gives status) check later d c x =
      (0, refl, omega arith, Every-nil Unseen attempt, at_start (Found status) attempt (inl d))
  try-Explained left attempt (throws false) check later d c x =
      (0, refl, omega arith, Every-nil Unseen attempt, at_start Broken attempt (inl d))
  try-Explained left attempt (throws true) (gives (success a l)) later d c x =
      (0, refl, omega arith, Every-nil Unseen attempt, at_start (Found _) attempt (inr (d, c)))
  try-Explained left attempt (throws true) (gives (failed a l)) later d c x =
      (0, refl, omega arith, Every-nil Unseen attempt, at_start (Found _) attempt (inr (d, c)))
  try-Explained left attempt (throws true) (gives (not_found a)) later d c x =
      next-Explained left attempt later.ending later.submissions (d, (a, c)) x
  try-Explained left attempt (throws true) (throws r) later d c x =
      (0, refl, omega arith, Every-nil Unseen attempt, at_start Broken attempt (inr (d, (r, c))))

  -- With `left` attempts from attempt `attempt` on, at most that many transactions are submitted, and every
  -- one but the last ended in an error that may be retried while the chain had not seen its hash. A status
  -- that is returned is that of the last one, from its polls or from the chain; the attempts count as used
  -- up only where every one of them was unseen.
  pub submit_from-Explained :
      (left attempt : ℕ)
      → let t = submit_from w left attempt in Explained left attempt t.ending t.submissions
  unfolding submit_from
  submit_from-Explained zero attempt = (refl, Every-nil Unseen attempt)
  submit_from-Explained (suc left) attempt =
      try-Explained left attempt _ _ (submit_from w left (suc attempt)) refl refl
        (submit_from-Explained left (suc attempt))

  -- A transaction that was accepted is followed by another one where its first poll fails in a way that may
  -- be retried and the chain has not seen it yet.
  pub accepted_sent_again :
      (left attempt : ℕ)
      → w.submit attempt ≡ gives tt
      → w.poll attempt 0 ≡ throws true
      → seen attempt (w.lookup attempt) ≡ gives (not_found attempt)
      → submit_from w (suc left) attempt ≡ next (submit_from w left (suc attempt))
  unfolding submit_from poll_until_final
  accepted_sent_again left attempt accepted failed_poll unseen = rw (accepted, failed_poll, unseen)
