-- ===== src/LimitOrders/OrderTests.antt =====
-- An order that is cancelled, and placements, of which one gets lost.
use coralswap_sdk.Common.{
  ℕ, zero, suc, ◌≡◌, refl, arith, true, false, [], ◌∷◌, Result, ◌>>=◌, err, transaction, Option,
  none, some, ok, Text, codes, pos, negsuc, same, has_content, is_space, to_lower_case, ap,
}
use coralswap_sdk.Submission.{
  Response, answered_other, answered_not_found, get_transaction_status, should_retry_submission,
}
use coralswap_sdk.LimitOrders.ScVal.{
  ScVal, sc_symbol, sc_string, sc_u32, sc_i128, sc_map, no_entries, entry, sc_map_to_record,
  scval_to_string, scval_to_number, scval_to_optional_number, scval_to_bigint, decode_i128,
}
use coralswap_sdk.LimitOrders.Parse.{
  Cancelled, state_named, map_of, read_state, read_fill_percent, read_execution_price,
  read_filled_at, parse_order_status, parse_cancel_result,
}
use coralswap_sdk.LimitOrders.Resubmit.{
  SubmitResult, confirmed, rejected, classify_failed_submission, submit_from,
  submit_with_idempotent_resubmission,
}
use coralswap_sdk.LimitOrders.Build.{
  finite, LimitOrderParams, Operation, status_of, cancel, create_order, Node, Chain,
  get_limit_order_status, check_cancellable, is_target_price, is_limit_order_params,
  build_cancel_operation, build_place_operation, order_exists, was_cancelled,
}
use coralswap_sdk.LimitOrders.Orders.{
  CancelResult, cancel_result, cancel_limit_order, place_limit_order,
}
use coralswap_sdk.LimitOrders.Settled.{Sends}
use coralswap_sdk.LimitOrders.Resent.{
  Exists, Missing, ReadsCancelled, ReadsOther, place_limit_order-Sends, cancel_limit_order-Sends,
}
use coralswap_sdk.LimitOrders.Guarded.{
  Cancels, cancel_limit_order-Cancels, Places, place_limit_order-Places,
}

abbrev amounts_value : ScVal
amounts_value = sc_map (
    entry (sc_symbol (codes "refunded_amount")) (sc_i128 (pos 600))
      (entry (sc_symbol (codes "filledAmount")) (sc_i128 (pos 400)) no_entries))

abbrev status_value : ScVal → ScVal
status_value state = sc_map (
    entry (sc_symbol (codes "state")) state
      (entry (sc_symbol (codes "fillPercent")) (sc_u32 (pos 40)) no_entries))

-- A node at which every order is in the state given.
abbrev answer : ScVal → Operation → Option ScVal
answer state (status_of order_id) = some (status_value state)
answer state (cancel order_id signer) = some amounts_value
answer state (create_order params signer) = some (sc_string (codes "o-2"))
answer state _ = none

abbrev node_in : ScVal → Node
node_in state = record { get_account = λ op. ok tt; simulate = λ op. ok (answer state op) }

abbrev chain_in : ScVal → Chain
chain_in state = record {
  public_key = 9;
  is_valid_address = λ a. true;
  now_ms = 1700000000000;
  get_pair_address = some (λ a b. ok (some 12));
  node = node_in state;
  node_after = λ i. node_in state;
  submit = λ ops i. confirmed 70;
  lookup = λ i. answered_other;
}

abbrev half_filled : ScVal
half_filled = sc_string (codes "PARTIAL")

cancels : cancel_limit_order (chain_in half_filled) (codes "o-1") none ≡ record {
  outcome =
      ok (record { refunded_amount = pos 600; filled_amount = pos 400; refund_tx_hash = some 70 });
  submissions = 1;
}
unfolding cancel_limit_order build_cancel_operation get_limit_order_status parse_order_status map_of
    sc_map_to_record scval_to_string read_state to_lower_case state_named read_fill_percent
    scval_to_number read_execution_price read_filled_at scval_to_optional_number same
    scval_to_bigint decode_i128 parse_cancel_result check_cancellable
    submit_with_idempotent_resubmission submit_from has_content is_space
cancels = refl

cancel_limit_order-Cancels_example :
    (op : Operation) × (amounts : Cancelled) × Cancels
      (chain_in half_filled)
      (codes "o-1")
      none
      op
      amounts
    × ((r : CancelResult)
        → (cancel_limit_order (chain_in half_filled) (codes "o-1") none).outcome ≡ ok r
        → (tx_hash : Option ℕ) × (r ≡ cancel_result amounts tx_hash))
cancel_limit_order-Cancels_example =
    cancel_limit_order-Cancels (chain_in half_filled) (codes "o-1") none
      (omega (arith, ap (λ t. t.submissions) cancels))

-- A price of 3 * 2 ** -1.
abbrev params : LimitOrderParams
params = record {
  token_in = 1;
  token_out = 2;
  amount_in = pos 1000;
  target_price = finite (pos 3) (negsuc 0);
  expiry = pos 1700000060;
  pair_address = 12;
}

places :
    place_limit_order (chain_in half_filled) params none
    ≡ record { outcome = ok (codes "o-2"); submissions = 1 }
unfolding place_limit_order build_place_operation is_limit_order_params is_target_price
    scval_to_string submit_with_idempotent_resubmission submit_from
places = refl

place_limit_order-Places_example :
    (op : Operation) × (order_id : Text) × Places (chain_in half_filled) params none op order_id
    × ((id : Text)
        → (place_limit_order (chain_in half_filled) params none).outcome ≡ ok id
        → id ≡ order_id)
place_limit_order-Places_example =
    place_limit_order-Places (chain_in half_filled) params none
      (omega (arith, ap (λ t. t.submissions) places))

-- The first submission is rejected and its hash is not found; the second has no hash, but the order is there.
abbrev flaky_submit : ℕ → SubmitResult
flaky_submit zero = rejected (some 7) false
flaky_submit (suc i) = rejected none true

abbrev flaky_lookup : ℕ → Response
flaky_lookup zero = answered_not_found
flaky_lookup (suc i) = answered_other

abbrev flaky : ScVal → Chain
flaky state = record (chain_in state) { submit = λ ops i. flaky_submit i; lookup = flaky_lookup }

places_twice :
    place_limit_order (flaky half_filled) params none
    ≡ record { outcome = ok (codes "o-2"); submissions = 2 }
unfolding place_limit_order build_place_operation is_limit_order_params is_target_price
    get_limit_order_status parse_order_status map_of sc_map_to_record scval_to_string read_state
    to_lower_case state_named read_fill_percent scval_to_number read_execution_price read_filled_at
    scval_to_optional_number same submit_with_idempotent_resubmission submit_from
    classify_failed_submission get_transaction_status should_retry_submission order_exists
    has_content is_space
places_twice = refl

place_limit_order-Sends_example :
    (op : Operation) × (order_id : Text) × (sent : Result (Option ℕ)) × (build_place_operation
        (flaky half_filled)
        params
        none
      ≡ ok (op, order_id))
    × ((place_limit_order (flaky half_filled) params none).outcome
        ≡ (sent >>= λ tx_hash. ok order_id))
    × Sends
        (flaky half_filled)
        (op ∷ [])
        (λ n. order_exists n order_id)
        (Exists order_id)
        (Missing order_id)
        sent
        (place_limit_order (flaky half_filled) params none).submissions
place_limit_order-Sends_example =
    place_limit_order-Sends (flaky half_filled) params none
      (omega (arith, ap (λ t. t.submissions) places_twice))

-- The order is still there, so that the third submission is the last.
cancels_in_vain :
    cancel_limit_order (flaky half_filled) (codes "o-1") none
    ≡ record { outcome = err transaction; submissions = 3 }
unfolding cancel_limit_order build_cancel_operation get_limit_order_status parse_order_status map_of
    sc_map_to_record scval_to_string read_state to_lower_case state_named read_fill_percent
    scval_to_number read_execution_price read_filled_at scval_to_optional_number same
    scval_to_bigint decode_i128 parse_cancel_result check_cancellable
    submit_with_idempotent_resubmission submit_from classify_failed_submission
    get_transaction_status should_retry_submission was_cancelled has_content is_space
cancels_in_vain = refl

cancel_limit_order-Sends_example :
    (op : Operation) × (amounts : Cancelled) × (sent : Result (Option ℕ)) × (build_cancel_operation
        (flaky half_filled)
        (codes "o-1")
        none
      ≡ ok (op, amounts))
    × ((cancel_limit_order (flaky half_filled) (codes "o-1") none).outcome
        ≡ (sent >>= λ tx_hash. ok (cancel_result amounts tx_hash)))
    × Sends
        (flaky half_filled)
        (op ∷ [])
        (λ n. was_cancelled n (codes "o-1"))
        (ReadsCancelled (codes "o-1"))
        (ReadsOther (codes "o-1"))
        sent
        (cancel_limit_order (flaky half_filled) (codes "o-1") none).submissions
cancel_limit_order-Sends_example =
    cancel_limit_order-Sends (flaky half_filled) (codes "o-1") none
      (omega (arith, ap (λ t. t.submissions) cancels_in_vain))
