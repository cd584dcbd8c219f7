-- ===== src/Submission/Liquidity.antt =====
-- `submitIdempotent` of src/utils/submit-idempotent.ts, which looks once at the chain after a time-out.
use coralswap_sdk.Common.{ℕ, ◌≡◌, ◌⊎◌, ◌↔◌, ◌≢◌, ap, inl, inr, refl, Option, none, some, or_else}
use coralswap_sdk.Submission.{
  Response, answered_success, answered_failed, answered_not_found, answered_other, threw,
}

-- The codes of a failed `Result`; `other_code` is any but these two.
pub data Code : Type 0 where
  tx_timeout tx_failed other_code : Code

-- The SDK's `Result` of a submission.
pub data Outcome : Type 0 where
  done : (tx_hash ledger : ℕ) → Outcome
  undone : Code → (tx_hash : Option ℕ) → Outcome

abbrev pub after_lookup : Response → ℕ → Outcome → Outcome
after_lookup (answered_success ledger) tx_hash result = done tx_hash (or_else ledger 0)
after_lookup (answered_failed ledger) tx_hash result = undone tx_failed (some tx_hash)
after_lookup answered_not_found tx_hash result = result
after_lookup answered_other tx_hash result = result
after_lookup threw tx_hash result = result

-- What `submitFn` returned, and what `getTransaction` says of a hash.
unfoldable pub submit_idempotent : Outcome → (ℕ → Response) → Outcome
submit_idempotent (done tx_hash ledger) get_transaction = done tx_hash ledger
submit_idempotent (undone tx_timeout none) get_transaction = undone tx_timeout none
submit_idempotent (undone tx_timeout (some tx_hash)) get_transaction =
    after_lookup (get_transaction tx_hash) tx_hash (undone tx_timeout (some tx_hash))
submit_idempotent (undone tx_failed tx_hash) get_transaction = undone tx_failed tx_hash
submit_idempotent (undone other_code tx_hash) get_transaction = undone other_code tx_hash

module _ (get_transaction : ℕ → Response) (h l : ℕ) where
  -- The chain confirmed the time-out of `h`, at ledger `l`.
  abbrev pub Rescued : Outcome → Type 0
  Rescued result =
      (result ≡ undone tx_timeout (some h))
      × ((given : Option ℕ) × (get_transaction h ≡ answered_success given) × (or_else given 0 ≡ l))

  elsewhere :
      (result : Outcome)
      → result ≢ undone tx_timeout (some h)
      → (result ≡ done h l) ↔ ((result ≡ done h l) ⊎ Rescued result)
  elsewhere result other =
      (λ e. inl e, λ p. elim p [ inl e ↦ e | inr (e, rest) ↦ absurd (other e) ])

  rescued :
      (h' : ℕ) (r : Response)
      → get_transaction h' ≡ r
      → after_lookup r h' (undone tx_timeout (some h')) ≡ done h l
      → Rescued (undone tx_timeout (some h'))
  rescued h' (answered_success given) seen e =
      let same : h' ≡ h = cc in
      let ledger : or_else given 0 ≡ l = cc in
      (ap (λ k. undone tx_timeout (some k)) same, (given, cc, ledger))
  rescued h' (answered_failed given) seen e = cc
  rescued h' answered_not_found seen e = cc
  rescued h' answered_other seen e = cc
  rescued h' threw seen e = cc

  rescue :
      (h' : ℕ)
      → Rescued (undone tx_timeout (some h'))
      → after_lookup (get_transaction h') h' (undone tx_timeout (some h')) ≡ done h l
  rescue h' (e, (given, seen, ledger)) = let same : h' ≡ h = cc in rw (same, seen, ledger)

  -- A success is reported exactly where the submission was confirmed, or timed out with its hash known and
  -- the chain says that it succeeded, with the ledger that the chain gives.
  pub submit_idempotent-done :
      (result : Outcome)
      → (submit_idempotent result get_transaction ≡ done h l)
        ↔ ((result ≡ done h l) ⊎ Rescued result)
  unfolding submit_idempotent
  submit_idempotent-done (done h' l') = elsewhere _ (λ e. cc)
  submit_idempotent-done (undone tx_timeout none) = elsewhere _ (λ e. cc)
  submit_idempotent-done (undone tx_timeout (some h')) =
      (λ e. inr (rescued h' _ refl e), λ p. elim p [ inl e ↦ cc | inr saved ↦ rescue h' saved ])
  submit_idempotent-done (undone tx_failed h') = elsewhere _ (λ e. cc)
  submit_idempotent-done (undone other_code h') = elsewhere _ (λ e. cc)
