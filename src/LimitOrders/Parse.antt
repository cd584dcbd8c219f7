-- ===== src/LimitOrders/Parse.antt =====
-- `parseOrderStatus`, `parseOrderDetails` and `parseCancelResult` of src/modules/limit-orders.ts.
use coralswap_sdk.Common.{
  ◌||◌, Option, Result, ok, err, parsing, throw_if, ◌>>=◌, ◌>>◌, Text, codes, same, to_lower_case,
  ltb_ℤ, if◌then◌else◌, ℤ, pos,
}
use coralswap_sdk.LimitOrders.ScVal.{
  ScVal, sc_map, Fields, sc_map_to_record, either_key, scval_to_string, scval_to_number,
  scval_to_optional_number, scval_to_bigint,
}

pub data LimitOrderState : Type 0 where
  open_order partial filled cancelled expired : LimitOrderState

pub record OrderStatus : Type 0 where
  pub state : LimitOrderState
  pub fill_percent : ℤ
  pub execution_price : Option ℤ
  pub filled_at : Option ℤ

pub record LimitOrderDetails : Type 0 where
  pub id : Text
  pub status : OrderStatus
  pub amount_filled : ℤ
  pub amount_remaining : ℤ
  pub created_at : ℤ

pub record Cancelled : Type 0 where
  pub refunded_amount : ℤ
  pub filled_amount : ℤ

-- `['open', …].includes(stateStr)`, and the state that the word names.
unfoldable pub state_named : Text → Result LimitOrderState
unfolding same
state_named word =
    if same word (codes "open")
    then ok open_order
    else (if same word (codes "partial")
        then ok partial
        else (if same word (codes "filled")
            then ok filled
            else (if same word (codes "cancelled")
                then ok cancelled
                else (if same word (codes "expired") then ok expired else err parsing))))

unfoldable pub map_of : ScVal → Result Fields
unfolding sc_map_to_record
map_of (sc_map entries) = ok (sc_map_to_record entries)
map_of _ = err parsing

unfoldable pub read_state : Fields → Result LimitOrderState
unfolding scval_to_string to_lower_case state_named
read_state fields =
    scval_to_string (fields (codes "state")) >>= λ word. state_named (to_lower_case word)

unfoldable pub read_fill_percent : Fields → Result ℤ
unfolding scval_to_number
read_fill_percent fields =
    scval_to_number (either_key fields (codes "fill_percent") (codes "fillPercent")) >>= λ percent.
    throw_if (ltb_ℤ percent (pos 0) || ltb_ℤ (pos 100) percent) parsing >> ok percent

unfoldable pub read_execution_price : Fields → Result (Option ℤ)
unfolding scval_to_optional_number
read_execution_price fields =
    scval_to_optional_number (either_key fields (codes "execution_price") (codes "executionPrice"))

unfoldable pub read_filled_at : Fields → Result (Option ℤ)
unfolding scval_to_optional_number
read_filled_at fields =
    scval_to_optional_number (either_key fields (codes "filled_at") (codes "filledAt"))

abbrev pub status_of : LimitOrderState → (percent : ℤ) → (price filled_at : Option ℤ) → OrderStatus
status_of state percent price filled_at = record {
  state = state;
  fill_percent = percent;
  execution_price = price;
  filled_at = filled_at;
}

unfoldable pub parse_order_status : ScVal → Result OrderStatus
unfolding map_of read_state read_fill_percent read_execution_price read_filled_at
parse_order_status value = map_of value >>= λ fields. read_state fields >>= λ state.
    read_fill_percent fields >>= λ percent. read_execution_price fields >>= λ price.
    read_filled_at fields >>= λ filled_at. ok (status_of state percent price filled_at)

unfoldable pub parse_order_details : ScVal → Result LimitOrderDetails
unfolding map_of scval_to_string scval_to_number scval_to_bigint read_state read_fill_percent
    read_execution_price read_filled_at
parse_order_details value = map_of value >>= λ fields.
    scval_to_string (fields (codes "id")) >>= λ id. read_state fields >>= λ state.
    read_fill_percent fields >>= λ percent. read_execution_price fields >>= λ price.
    read_filled_at fields >>= λ filled_at.
    scval_to_bigint (either_key fields (codes "amount_filled") (codes "amountFilled")) >>= λ done.
    scval_to_bigint (either_key fields (codes "amount_remaining") (codes "amountRemaining"))
    >>= λ rest.
        scval_to_number (either_key fields (codes "created_at") (codes "createdAt"))
        >>= λ created_at. ok (record {
          id = id;
          status = status_of state percent price filled_at;
          amount_filled = done;
          amount_remaining = rest;
          created_at = created_at;
        })

unfoldable pub parse_cancel_result : ScVal → Result Cancelled
unfolding map_of scval_to_bigint
parse_cancel_result value = map_of value >>= λ fields.
    scval_to_bigint (either_key fields (codes "refunded_amount") (codes "refundedAmount"))
    >>= λ refunded.
        scval_to_bigint (either_key fields (codes "filled_amount") (codes "filledAmount"))
        >>= λ filled. ok (record { refunded_amount = refunded; filled_amount = filled })
