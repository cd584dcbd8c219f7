-- ===== src/LimitOrders/Resent.antt =====
-- How placing and cancelling in src/modules/limit-orders.ts end, and what every resubmission rests on: the status
-- of a hash, or what `orderExists` and `wasCancelled` have read.
use mathlib.Core.Path.{subst}
use coralswap_sdk.Common.{
  ℕ, ◌<◌, ◌≡◌, ◌≢◌, ◌⊎◌, inl, inr, refl, sym, ap, Bool, true, false, Option, [], ◌∷◌, Result, ok,
  err, SdkError, simulation, order_not_found, ◌>>=◌, Text, if◌then◌else◌, bind-returned,
  ok-injective,
}
use coralswap_sdk.Market.{Address}
use coralswap_sdk.LimitOrders.Parse.{LimitOrderState, cancelled, OrderStatus, Cancelled}
use coralswap_sdk.LimitOrders.Resubmit.{submit_with_idempotent_resubmission}
use coralswap_sdk.LimitOrders.Build.{
  LimitOrderParams, Operation, Node, Chain, get_limit_order_status, is_order_missing_code,
  read_as_existing, order_exists, is_cancelled, was_cancelled, build_cancel_operation,
  build_place_operation,
}
use coralswap_sdk.LimitOrders.Orders.{
  Run, CancelResult, cancel_result, cancel_limit_order, place_limit_order, attempts_of,
}
use coralswap_sdk.LimitOrders.Guarded.{built_before}
use coralswap_sdk.LimitOrders.Settled.{Sends, submit-Sends}

-- What `orderExists` has read: a status of the order, or one of the two errors that mean that there is none.
abbrev pub Exists : Text → Node → Type 0
Exists order_id n = (s : OrderStatus) × (get_limit_order_status n order_id ≡ ok s)

abbrev pub Missing : Text → Node → Type 0
Missing order_id n =
    (thrown : SdkError) × (get_limit_order_status n order_id ≡ err thrown)
    × ((thrown ≡ simulation) ⊎ (thrown ≡ order_not_found))

not_missing :
    (missing : Bool) (thrown : SdkError) → (if missing then ok false else err thrown) ≡ ok true → ⊥
not_missing true thrown e = cc
not_missing false thrown e = cc

is_missing :
    (missing : Bool) (thrown : SdkError)
    → (if missing then ok false else err thrown) ≡ ok false
    → missing ≡ true
is_missing true thrown e = refl
is_missing false thrown e = cc

missing_code :
    (thrown : SdkError)
    → is_order_missing_code thrown ≡ true
    → (thrown ≡ simulation) ⊎ (thrown ≡ order_not_found)
unfolding is_order_missing_code
missing_code simulation e = inl refl
missing_code order_not_found e = inr refl
missing_code _ e = cc

read-Exists :
    (r : Result OrderStatus) → read_as_existing r ≡ ok true → (s : OrderStatus) × (r ≡ ok s)
read-Exists (ok s) e = (s, refl)
read-Exists (err thrown) e = absurd (not_missing (is_order_missing_code thrown) thrown e)

read-Missing :
    (r : Result OrderStatus)
    → read_as_existing r ≡ ok false
    → (thrown : SdkError) × (r ≡ err thrown) × ((thrown ≡ simulation) ⊎ (thrown ≡ order_not_found))
read-Missing (ok s) e = cc
read-Missing (err thrown) e =
    (thrown, refl, missing_code thrown (is_missing (is_order_missing_code thrown) thrown e))

order_exists-Exists :
    (n : Node) (order_id : Text) → order_exists n order_id ≡ ok true → Exists order_id n
unfolding order_exists
order_exists-Exists n order_id e = read-Exists (get_limit_order_status n order_id) e

order_exists-Missing :
    (n : Node) (order_id : Text) → order_exists n order_id ≡ ok false → Missing order_id n
unfolding order_exists
order_exists-Missing n order_id e = read-Missing (get_limit_order_status n order_id) e

-- What `wasCancelled` has read.
abbrev pub ReadsCancelled : Text → Node → Type 0
ReadsCancelled order_id n =
    (s : OrderStatus) × (get_limit_order_status n order_id ≡ ok s) × (s.state ≡ cancelled)

abbrev pub ReadsOther : Text → Node → Type 0
ReadsOther order_id n =
    (s : OrderStatus) × (get_limit_order_status n order_id ≡ ok s) × (s.state ≢ cancelled)

cancelled_state : (s : LimitOrderState) → is_cancelled s ≡ true → s ≡ cancelled
cancelled_state cancelled e = refl
cancelled_state _ e = cc

other_state : (s : LimitOrderState) → is_cancelled s ≡ false → s ≢ cancelled
other_state s e same = cc

was_cancelled-ReadsCancelled :
    (n : Node) (order_id : Text) → was_cancelled n order_id ≡ ok true → ReadsCancelled order_id n
unfolding was_cancelled
was_cancelled-ReadsCancelled n order_id e =
    let b = bind-returned (get_limit_order_status n order_id) _ e in
    (b.value, b.first, cancelled_state b.value.state (ok-injective b.then_rest))

was_cancelled-ReadsOther :
    (n : Node) (order_id : Text) → was_cancelled n order_id ≡ ok false → ReadsOther order_id n
unfolding was_cancelled
was_cancelled-ReadsOther n order_id e =
    let b = bind-returned (get_limit_order_status n order_id) _ e in
    (b.value, b.first, other_state b.value.state (ok-injective b.then_rest))

-- A placement that submits anything submits the operation that it has built, at most three times. It submits it
-- again only where the network has not seen the hash of the rejected submission, or where there is no hash,
-- the error is retryable and the status of the order could not be read for one of the two errors that mean a
-- missing order. It returns the id of the order only where the last submission was confirmed, its hash
-- succeeded, or the order's status was read; it throws a `TransactionError` where the last one was never sent,
-- its hash failed or has no known status, or it is the third and has not landed, and else what reading the
-- status threw.
pub place_limit_order-Sends :
    (c : Chain) (params : LimitOrderParams) (signer : Option Address)
    → 0 < (place_limit_order c params signer).submissions
    → (op : Operation) × (order_id : Text) × (sent : Result (Option ℕ)) × (build_place_operation c
          params signer
        ≡ ok (op, order_id))
      × ((place_limit_order c params signer).outcome ≡ (sent >>= λ tx_hash. ok order_id))
      × Sends c
          (op ∷ [])
          (λ n. order_exists n order_id)
          (Exists order_id)
          (Missing order_id)
          sent
          (place_limit_order c params signer).submissions
unfolding place_limit_order
place_limit_order-Sends c params signer h =
    let b = built_before (build_place_operation c params signer) _ h in
    let (op, order_id) = b.built in
    let sends =
      submit-Sends c (op ∷ []) (λ n. order_exists n order_id) (Exists order_id) (Missing order_id)
        (λ n e. order_exists-Exists n order_id e) (λ n e. order_exists-Missing n order_id e) in
    let t =
      submit_with_idempotent_resubmission
        (attempts_of c (op ∷ []) (λ n. order_exists n order_id)) in
    (
      op,
      order_id,
      t.outcome,
      b.first,
      ap (λ (r : Run Text). r.outcome) b.same,
      subst
          (λ (n : ℕ).
            Sends c (op ∷ []) (λ n. order_exists n order_id) (Exists order_id) (Missing order_id)
              t.outcome n)
          (sym (ap (λ (r : Run Text). r.submissions) b.same)) sends,
    )

-- A cancellation that submits anything submits the operation that it has built, at most three times. It submits
-- it again only where the network has not seen the hash of the rejected submission, or where there is no
-- hash, the error is retryable and the order was read in a state other than cancelled. It returns the amounts
-- of the simulation only where the last submission was confirmed, its hash succeeded, or the order was read
-- as cancelled; it throws a `TransactionError` where the last one was never sent, its hash failed or has no
-- known status, or it is the third and has not landed, and else what reading the status threw.
pub cancel_limit_order-Sends :
    (c : Chain) (order_id : Text) (signer : Option Address)
    → 0 < (cancel_limit_order c order_id signer).submissions
    → (op : Operation) × (amounts : Cancelled) × (sent : Result (Option ℕ))
      × (build_cancel_operation c order_id signer ≡ ok (op, amounts))
      × ((cancel_limit_order c order_id signer).outcome
          ≡ (sent >>= λ tx_hash. ok (cancel_result amounts tx_hash)))
      × Sends c
          (op ∷ [])
          (λ n. was_cancelled n order_id)
          (ReadsCancelled order_id)
          (ReadsOther order_id)
          sent
          (cancel_limit_order c order_id signer).submissions
unfolding cancel_limit_order
cancel_limit_order-Sends c order_id signer h =
    let b = built_before (build_cancel_operation c order_id signer) _ h in
    let (op, amounts) = b.built in
    let sends =
      submit-Sends c (op ∷ []) (λ n. was_cancelled n order_id) (ReadsCancelled order_id)
        (ReadsOther order_id) (λ n e. was_cancelled-ReadsCancelled n order_id e)
        (λ n e. was_cancelled-ReadsOther n order_id e) in
    let t =
      submit_with_idempotent_resubmission
        (attempts_of c (op ∷ []) (λ n. was_cancelled n order_id)) in
    (
      op,
      amounts,
      t.outcome,
      b.first,
      ap (λ (r : Run CancelResult). r.outcome) b.same,
      subst
          (λ (n : ℕ).
            Sends c (op ∷ []) (λ n. was_cancelled n order_id) (ReadsCancelled order_id)
              (ReadsOther order_id) t.outcome n)
          (sym (ap (λ (r : Run CancelResult). r.submissions) b.same)) sends,
    )
