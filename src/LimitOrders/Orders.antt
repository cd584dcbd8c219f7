-- ===== src/LimitOrders/Orders.antt =====
-- The operations of `LimitOrderModule` in src/modules/limit-orders.ts.
use coralswap_sdk.Common.{
  ℕ, Bool, true, false, not, Option, some, List, [], ◌∷◌, keep, Result, ok, err, SdkError,
  validation, throw_if, ◌>>=◌, ◌>>◌, Text, ℤ,
}
use coralswap_sdk.Market.{Address}
use coralswap_sdk.LimitOrders.ScVal.{scval_to_string_vec}
use coralswap_sdk.LimitOrders.Parse.{open_order, partial, LimitOrderDetails, Cancelled}
use coralswap_sdk.LimitOrders.Resubmit.{Attempts, Submitted, submit_with_idempotent_resubmission}
use coralswap_sdk.LimitOrders.Build.{
  LimitOrderParams, Operation, Node, Chain, simulated, get_limit_order, order_exists, was_cancelled,
  build_cancel_operation, build_place_operation, orders_for_user,
}

-- How a call ended, and the submissions it made.
pub record Run {ℓ} (A : Type ℓ) : Type ℓ where
  pub outcome : Result A
  pub submissions : ℕ

abbrev pub refused {ℓ} : {A : Type ℓ} → SdkError → Run A
refused thrown = record { outcome = err thrown; submissions = 0 }

abbrev pub after_build {ℓ κ} : {B : Type κ} {A : Type ℓ} → Result B → (B → Run A) → Run A
after_build (ok built) rest = rest built
after_build (err thrown) rest = refused thrown

abbrev pub attempts_of : Chain → List Operation → (Node → Result Bool) → Attempts
attempts_of c ops has_landed = record {
  submit = c.submit ops;
  lookup = c.lookup;
  has_landed = λ i. has_landed (c.node_after i);
}

abbrev pub returning {ℓ} : {A : Type ℓ} → Submitted → (Option ℕ → A) → Run A
returning t result = record {
  outcome = t.outcome >>= λ tx_hash. ok (result tx_hash);
  submissions = t.submissions;
}

-- No hash is the `''` of the source.
pub record CancelResult : Type 0 where
  pub refunded_amount : ℤ
  pub filled_amount : ℤ
  pub refund_tx_hash : Option ℕ

abbrev pub cancel_result : Cancelled → Option ℕ → CancelResult
cancel_result amounts tx_hash = record {
  refunded_amount = amounts.refunded_amount;
  filled_amount = amounts.filled_amount;
  refund_tx_hash = tx_hash;
}

unfoldable pub cancel_limit_order : Chain → Text → Option Address → Run CancelResult
cancel_limit_order c order_id signer =
    after_build (build_cancel_operation c order_id signer) (λ (built : Operation × Cancelled).
      returning
        (submit_with_idempotent_resubmission
          (attempts_of c (built.0 ∷ []) (λ n. was_cancelled n order_id)))
        (cancel_result built.1))

-- The result is the order's id.
unfoldable pub place_limit_order : Chain → LimitOrderParams → Option Address → Run Text
place_limit_order c params signer =
    after_build (build_place_operation c params signer) (λ (built : Operation × Text).
      returning
        (submit_with_idempotent_resubmission
          (attempts_of c (built.0 ∷ []) (λ n. order_exists n built.1)))
        (λ tx_hash. built.1))

unfoldable pub cancel_and_replace_limit_order :
    Chain → Text → LimitOrderParams → Option Address → Run (CancelResult × Text)
cancel_and_replace_limit_order c order_id params signer =
    after_build (build_cancel_operation c order_id signer) (λ (cancelling : Operation × Cancelled).
      after_build (build_place_operation c params signer) (λ (placing : Operation × Text).
        returning
          (submit_with_idempotent_resubmission
            (attempts_of c (cancelling.0 ∷ placing.0 ∷ []) (λ n. order_exists n placing.1)))
          (λ tx_hash. (cancel_result cancelling.1 tx_hash, placing.1))))

-- `Promise.all(orderIds.map((id) => this.getLimitOrder(id)))`; of several errors the first is taken.
abbrev pub get_all : Node → List Text → Result (List LimitOrderDetails)
get_all n [] = ok []
get_all n (order_id ∷ rest) =
    let others = get_all n rest in
    get_limit_order n order_id >>= λ order. others >>= λ orders. ok (order ∷ orders)

unfoldable pub is_open : LimitOrderDetails → Bool
is_open order = elim order.status.state [ open_order ↦ true | partial ↦ true | _ ↦ false ]

unfoldable pub get_open_orders : Chain → Address → Result (List LimitOrderDetails)
get_open_orders c address =
    throw_if (not (c.is_valid_address address)) validation
    >> simulated c.node (orders_for_user address)
    >>= λ value. scval_to_string_vec (some value) >>= λ order_ids.
        get_all c.node order_ids >>= λ orders. ok (keep is_open orders)
