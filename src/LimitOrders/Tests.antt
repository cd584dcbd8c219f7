-- ===== src/LimitOrders/Tests.antt =====
-- An order that is partly filled, read, cancelled and placed; submissions that get lost.
use coralswap_sdk.Common.{
  ◌^◌, ℕ, zero, suc, ◌+◌, ◌≡◌, refl, true, false, none, some, ok, Text, codes, to_lower_case, pos,
  ◌≤ℤ◌, ltb, same,
}
use coralswap_sdk.Submission.{
  Response, answered_not_found, answered_other, get_transaction_status, should_retry_submission,
}
use coralswap_sdk.LimitOrders.ScVal.{
  ScVal, sc_symbol, sc_string, sc_u32, sc_u64, sc_i128, sc_i128_parts, sc_map, no_entries, entry,
  Fields, sc_map_to_record, scval_to_string, scval_to_number, scval_to_optional_number,
  scval_to_bigint, to_number, to_double, decode_i128,
}
use coralswap_sdk.LimitOrders.Parse.{
  partial, OrderStatus, LimitOrderDetails, state_named, map_of, read_state, read_fill_percent,
  read_execution_price, read_filled_at, parse_order_status, parse_order_details,
}
use coralswap_sdk.LimitOrders.Parsed.{parse_order_status-Valid}
use coralswap_sdk.LimitOrders.Resubmit.{
  SubmitResult, rejected, Attempts, classify_failed_submission, submit_from,
  submit_with_idempotent_resubmission,
}

abbrev order_value : ScVal
order_value = sc_map (
    entry (sc_symbol (codes "id")) (sc_string (codes "o-1")) (
      entry (sc_symbol (codes "state")) (sc_symbol (codes "Partial")) (
        entry (sc_string (codes "fill_percent")) (sc_u32 (pos 40)) (
          entry (sc_symbol (codes "amount_filled")) (sc_i128 (pos 400)) (
            entry (sc_symbol (codes "amount_remaining")) (sc_i128_parts (pos 0) (pos 600))
              (entry (sc_symbol (codes "created_at")) (sc_u64 (pos 1700000000)) no_entries))))))

abbrev status : OrderStatus
status = record { state = partial; fill_percent = pos 40; execution_price = none; filled_at = none }

abbrev order : LimitOrderDetails
order = record {
  id = codes "o-1";
  status = status;
  amount_filled = pos 400;
  amount_remaining = pos 600;
  created_at = pos 1700000000;
}

read_status : parse_order_status order_value ≡ ok status
unfolding parse_order_status map_of sc_map_to_record scval_to_string read_state to_lower_case
    state_named read_fill_percent scval_to_number read_execution_price read_filled_at
    scval_to_optional_number same
read_status = refl

read_details : parse_order_details order_value ≡ ok order
unfolding parse_order_details map_of sc_map_to_record scval_to_string read_state to_lower_case
    state_named read_fill_percent scval_to_number read_execution_price read_filled_at
    scval_to_optional_number same scval_to_bigint to_number to_double decode_i128
read_details = refl

-- Ties go to the even neighbour.
rounded_even : to_number (pos (2 ^ 53 + 1)) ≡ pos (2 ^ 53)
unfolding to_number to_double
rounded_even = refl

parse_order_status-Valid_example :
    (pos 0 ≤ℤ pos 40)
    × (pos 40 ≤ℤ pos 100)
    × ((fields : Fields) × (word : Text) × (map_of order_value ≡ ok fields)
        × (scval_to_string (fields (codes "state")) ≡ ok word)
        × (state_named (to_lower_case word) ≡ ok partial))
parse_order_status-Valid_example = parse_order_status-Valid order_value read_status

-- The first submission is not seen; the second times out without a hash, but has landed.
abbrev flaky_submit : ℕ → SubmitResult
flaky_submit zero = rejected (some 7) false
flaky_submit (suc i) = rejected none true

abbrev flaky_lookup : ℕ → Response
flaky_lookup zero = answered_not_found
flaky_lookup (suc i) = answered_other

abbrev flaky : Attempts
flaky = record { submit = flaky_submit; lookup = flaky_lookup; has_landed = λ i. ok (ltb 0 i) }

flaky_lands :
    submit_with_idempotent_resubmission flaky ≡ record { outcome = ok none; submissions = 2 }
unfolding submit_with_idempotent_resubmission submit_from classify_failed_submission
    get_transaction_status should_retry_submission
flaky_lands = refl
