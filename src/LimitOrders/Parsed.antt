-- ===== src/LimitOrders/Parsed.antt =====
-- What `parseOrderStatus` and `parseOrderDetails` of src/modules/limit-orders.ts return, where they return.
use coralswap_sdk.Common.{
  ◌≡◌, ◌||◌, false, ok, parsing, Text, codes, to_lower_case, ltb_ℤ, ◌≤ℤ◌, ℤ, pos, bind-returned,
  guard-passed, ok-injective, arith,
}
use mathlib.Core.Path.{subst}
use coralswap_sdk.LimitOrders.ScVal.{
  ScVal, Fields, either_key, scval_to_string, scval_to_number, scval_to_bigint,
}
use coralswap_sdk.LimitOrders.Parse.{
  LimitOrderState, OrderStatus, LimitOrderDetails, state_named, map_of, read_state,
  read_fill_percent, read_execution_price, read_filled_at, parse_order_status, parse_order_details,
}

in_range : (n : ℤ) → (ltb_ℤ n (pos 0) || ltb_ℤ (pos 100) n) ≡ false → (pos 0 ≤ℤ n) × (n ≤ℤ pos 100)
in_range n h = ground arith

percent_in_range :
    (fields : Fields) {n : ℤ} → read_fill_percent fields ≡ ok n → (pos 0 ≤ℤ n) × (n ≤ℤ pos 100)
unfolding read_fill_percent
percent_in_range fields {n} e =
    let key = either_key fields (codes "fill_percent") (codes "fillPercent") in
    let read = bind-returned (scval_to_number key) _ e in
    let (inside, same) =
      guard-passed (ltb_ℤ read.value (pos 0) || ltb_ℤ (pos 100) read.value) parsing _
        read.then_rest in
    subst (λ k. (pos 0 ≤ℤ k) × (k ≤ℤ pos 100)) (ok-injective same) (in_range read.value inside)

state_of_word :
    (fields : Fields) {s : LimitOrderState}
    → read_state fields ≡ ok s
    → (word : Text) × (scval_to_string (fields (codes "state")) ≡ ok word)
      × (state_named (to_lower_case word) ≡ ok s)
unfolding read_state
state_of_word fields e =
    let read = bind-returned (scval_to_string (fields (codes "state"))) _ e in
    (read.value, read.first, read.then_rest)

-- The parts of a status that was read from `fields`.
record Parts (fields : Fields) (s : OrderStatus) : Type 0 where
  state : read_state fields ≡ ok s.state
  percent : read_fill_percent fields ≡ ok s.fill_percent
  price : read_execution_price fields ≡ ok s.execution_price
  filled_at : read_filled_at fields ≡ ok s.filled_at

Parts-parse :
    (value : ScVal) (fields : Fields) (s : OrderStatus)
    → map_of value ≡ ok fields
    → Parts fields s
    → parse_order_status value ≡ ok s
unfolding parse_order_status
Parts-parse value fields s e p = simp (e, p.state, p.percent, p.price, p.filled_at)

parse-Parts :
    (value : ScVal) {s : OrderStatus}
    → parse_order_status value ≡ ok s
    → (fields : Fields) × (map_of value ≡ ok fields) × Parts fields s
unfolding parse_order_status
parse-Parts value {s} e =
    let m = bind-returned (map_of value) _ e in
    let state = bind-returned (read_state m.value) _ m.then_rest in
    let percent = bind-returned (read_fill_percent m.value) _ state.then_rest in
    let price = bind-returned (read_execution_price m.value) _ percent.then_rest in
    let at = bind-returned (read_filled_at m.value) _ price.then_rest in
    (
      m.value,
      m.first,
      subst (Parts m.value) (ok-injective at.then_rest) (record {
        state = state.first;
        percent = percent.first;
        price = price.first;
        filled_at = at.first;
      }),
    )

-- A status that was parsed is filled between 0 and 100 percent, and its state is the one that the text in
-- the field `state` names, in capitals or not.
pub parse_order_status-Valid :
    (value : ScVal) {s : OrderStatus}
    → parse_order_status value ≡ ok s
    → (pos 0 ≤ℤ s.fill_percent)
      × (s.fill_percent ≤ℤ pos 100)
      × ((fields : Fields) × (word : Text) × (map_of value ≡ ok fields)
          × (scval_to_string (fields (codes "state")) ≡ ok word)
          × (state_named (to_lower_case word) ≡ ok s.state))
parse_order_status-Valid value e =
    let (fields, found, parts) = parse-Parts value e in
    let (low, high) = percent_in_range fields parts.percent in
    let (word, read, named) = state_of_word fields parts.state in
    (low, high, (fields, word, found, read, named))

-- The two parsers agree: where the details of an order are parsed, `parseOrderStatus` of the same value
-- returns the status in them.
pub parse_order_details-status :
    (value : ScVal) {d : LimitOrderDetails}
    → parse_order_details value ≡ ok d
    → parse_order_status value ≡ ok d.status
unfolding parse_order_details
parse_order_details-status value e =
    let m = bind-returned (map_of value) _ e in
    let fields = m.value in
    let id = bind-returned (scval_to_string (fields (codes "id"))) _ m.then_rest in
    let state = bind-returned (read_state fields) _ id.then_rest in
    let percent = bind-returned (read_fill_percent fields) _ state.then_rest in
    let price = bind-returned (read_execution_price fields) _ percent.then_rest in
    let at = bind-returned (read_filled_at fields) _ price.then_rest in
    let done =
      bind-returned
        (scval_to_bigint (either_key fields (codes "amount_filled") (codes "amountFilled"))) _
        at.then_rest in
    let rest =
      bind-returned
        (scval_to_bigint (either_key fields (codes "amount_remaining") (codes "amountRemaining"))) _
        done.then_rest in
    let created =
      bind-returned (scval_to_number (either_key fields (codes "created_at") (codes "createdAt"))) _
        rest.then_rest in
    Parts-parse value fields _ m.first (
      subst (λ (d : LimitOrderDetails). Parts fields d.status) (ok-injective created.then_rest)
        (record {
          state = state.first;
          percent = percent.first;
          price = price.first;
          filled_at = at.first;
        }))
