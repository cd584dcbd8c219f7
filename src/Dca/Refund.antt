-- ===== src/Dca/Refund.antt =====
-- What `cancelDCA` of src/modules/dca.ts refunds.
use coralswap_sdk.Common.{
  ℕ, ◌+◌, ◌-◌, ◌*◌, ◌≤◌, ◌≡◌, refl, sym, ap, ◌∙◌, arith, not, Option, none, some, Result, ok,
  validation, ◌>>=◌, Text, has_content, pos, ◌+ℤ◌, ◌*ℤ◌, bind-returned, guard-passed, ok-injective,
}
use coralswap_sdk.Market.{Address}
use coralswap_sdk.Dca.{
  NativeSchedule, DcaSchedule, DcaClient, DcaCancellation, running, completed, cancelled_schedule,
  DcaStatus, decode_schedule, decoded_schedule, get_dca_schedule, cancel_dca, cancel_dca_call,
  submitted_hash, check_running, refund,
}

check_running-passed :
    {B : Type 0} (status : DcaStatus) (rest : Result B) {b : B}
    → (check_running status >>= λ u. rest) ≡ ok b
    → (status ≡ running) × (rest ≡ ok b)
check_running-passed running rest e = (refl, e)
check_running-passed completed rest e = cc
check_running-passed cancelled_schedule rest e = cc

submitted_hash-known :
    (answer : Option ℕ) (tx_hash : ℕ) → submitted_hash answer ≡ ok tx_hash → answer ≡ some tx_hash
submitted_hash-known none tx_hash e = cc
submitted_hash-known (some hash) tx_hash e = ap some (ok-injective e)

decoded-known :
    (answer : Result (Option NativeSchedule)) (native : NativeSchedule) (schedule : DcaSchedule)
    → answer ≡ ok (some native)
    → (answer >>= decoded_schedule) ≡ ok schedule
    → decode_schedule native ≡ schedule
decoded-known answer native schedule known e =
    ok-injective
      (sym (ap (λ (r : Result (Option NativeSchedule)). r >>= decoded_schedule) known) ∙ e)

-- What is left of the escrow, and what has been spent of it.
whole_escrow : (a t x : ℕ) → x ≤ t → pos a *ℤ pos (t - x) +ℤ pos (a * x) ≡ pos (a * t)
whole_escrow a t x h = ap pos (split a (t - x) x ∙ ap (λ (n : ℕ). a * n) (meets t x h))
  where
    split : (a b x : ℕ) → a * b + a * x ≡ a * (b + x)
    split a b x = grind arith

    meets : (t x : ℕ) → x ≤ t → t - x + x ≡ t
    meets t x h = omega arith

refund_rest :
    (native : NativeSchedule) (a t x : ℕ)
    → native.amount_per_interval ≡ some (pos a)
    → native.total_intervals ≡ some t
    → native.executed_count ≡ some x
    → x ≤ t
    → refund (decode_schedule native) +ℤ pos (a * x) ≡ pos (a * t)
unfolding decode_schedule
refund_rest native a t x amount total executed h =
    rw amount (rw total (rw executed (whole_escrow a t x h)))

module _ (c : DcaClient) (schedule_id : Text) (signer : Address) (done : DcaCancellation) where
  -- A cancellation that returns is of a schedule that was active, and the contract accepted it. Where the
  -- contract has executed no more intervals than there are, the refund and what the executed intervals
  -- have spent are together what was escrowed.
  pub cancel_dca-refund :
      (native : NativeSchedule) (a t x : ℕ)
      → cancel_dca c schedule_id signer ≡ ok done
      → c.get_schedule schedule_id ≡ ok (some native)
      → native.amount_per_interval ≡ some (pos a)
      → native.total_intervals ≡ some t
      → native.executed_count ≡ some x
      → x ≤ t
      → ((decode_schedule native).status ≡ running)
        × (c.submit_dca (cancel_dca_call schedule_id signer) signer ≡ ok (some done.tx_hash))
        × (done.refund_amount +ℤ pos (a * x) ≡ pos (a * t))
  unfolding cancel_dca get_dca_schedule
  cancel_dca-refund native a t x e found amount total executed h =
      let (filled, read) = guard-passed (not (has_content schedule_id)) validation _ e in
      let known = bind-returned (get_dca_schedule c schedule_id) _ read in
      let (still, sent) = check_running-passed known.value.status _ known.then_rest in
      let hash =
        bind-returned (c.submit_dca (cancel_dca_call schedule_id signer) signer >>= submitted_hash)
          _ sent in
      let accepted =
        bind-returned (c.submit_dca (cancel_dca_call schedule_id signer) signer) _ hash.first in
      let same =
        decoded-known (c.get_schedule schedule_id) native known.value found
          (guard-passed (not (has_content schedule_id)) validation _ known.first).1 in
      let finished = ok-injective hash.then_rest in
      (
        ap (λ (s : DcaSchedule). s.status) same ∙ still,
        accepted.first
            ∙ ap ok (
                submitted_hash-known accepted.value hash.value accepted.then_rest
                ∙ ap (λ (d : DcaCancellation). some d.tx_hash) finished),
        ap (λ (d : DcaCancellation). d.refund_amount +ℤ pos (a * x)) (sym finished)
            ∙ (ap (λ (s : DcaSchedule). refund s +ℤ pos (a * x)) (sym same)
                ∙ refund_rest native a t x amount total executed h),
      )
