-- ===== src/LimitOrders/Build.antt =====
-- What `LimitOrderModule` of src/modules/limit-orders.ts reads and checks before it submits anything.
use coralswap_sdk.Common.{
  ℕ, ◌*◌, ◌/◌, ◌^◌, suc, Bool, true, false, not, ◌&&◌, Option, none, some, or_else, List, Result,
  ok, err, SdkError, validation, simulation, order_not_found, invalid_operation, throw_if, ◌>>=◌,
  ◌>>◌, Text, has_content, leb, ◌==◌, if◌then◌else◌, ℤ, pos, negsuc, ltb_ℤ,
}
use coralswap_sdk.Market.{Address}
use coralswap_sdk.Submission.{Response}
use coralswap_sdk.LimitOrders.ScVal.{ScVal, scval_to_string}
use coralswap_sdk.LimitOrders.Parse.{
  LimitOrderState, filled, cancelled, expired, OrderStatus, LimitOrderDetails, Cancelled,
  parse_order_status, parse_order_details, parse_cancel_result,
}
use coralswap_sdk.LimitOrders.Resubmit.{SubmitResult}

-- A number of JavaScript: `m * 2 ** e`, or none that is finite.
pub data Number : Type 0 where
  finite : (m e : ℤ) → Number
  infinite nan : Number

pub record LimitOrderParams : Type 0 where
  pub token_in : Address
  pub token_out : Address
  pub amount_in : ℤ
  pub target_price : Number
  pub expiry : ℤ
  pub pair_address : Address

-- The calls of the contract.
pub data Operation : Type 0 where
  status_of get_order : (order_id : Text) → Operation
  cancel : (order_id : Text) (signer : Address) → Operation
  create_order : LimitOrderParams → (signer : Address) → Operation
  orders_for_user : Address → Operation

-- `withRetry(() => server.getAccount(…))` before a simulation, and
-- `withRetry(() => server.simulateTransaction(tx))`: its value, where it succeeded and has one.
pub record Node : Type 0 where
  pub get_account : Operation → Result (Unit {0})
  pub simulate : Operation → Result (Option ScVal)

-- What a call reads: the settings of the client, the node at the start and after attempt `i`, and
-- what the submissions answer. A client may lack `getPairAddress`.
pub record Chain : Type 0 where
  pub public_key : Address
  pub is_valid_address : Address → Bool
  pub now_ms : ℕ
  pub get_pair_address : Option (Address → Address → Result (Option Address))
  pub node : Node
  pub node_after : ℕ → Node
  pub submit : List Operation → ℕ → SubmitResult
  pub lookup : ℕ → Response

abbrev pub required : Option ScVal → Result ScVal
required none = err simulation
required (some value) = ok value

abbrev pub simulated : Node → Operation → Result ScVal
simulated n op = n.get_account op >>= λ account. n.simulate op >>= required

unfoldable pub get_limit_order_status : Node → Text → Result OrderStatus
get_limit_order_status n order_id =
    throw_if (not (has_content order_id)) validation
    >> simulated n (status_of order_id)
    >>= parse_order_status

unfoldable pub get_limit_order : Node → Text → Result LimitOrderDetails
get_limit_order n order_id =
    throw_if (not (has_content order_id)) validation
    >> simulated n (get_order order_id)
    >>= parse_order_details

-- `isOrderMissingCode(err.code)`
unfoldable pub is_order_missing_code : SdkError → Bool
is_order_missing_code simulation = true
is_order_missing_code order_not_found = true
is_order_missing_code _ = false

abbrev pub read_as_existing : Result OrderStatus → Result Bool
read_as_existing (ok status) = ok true
read_as_existing (err thrown) = if is_order_missing_code thrown then ok false else err thrown

unfoldable pub order_exists : Node → Text → Result Bool
order_exists n order_id = read_as_existing (get_limit_order_status n order_id)

abbrev pub is_cancelled : LimitOrderState → Bool
is_cancelled cancelled = true
is_cancelled _ = false

unfoldable pub was_cancelled : Node → Text → Result Bool
was_cancelled n order_id =
    get_limit_order_status n order_id >>= λ status. ok (is_cancelled status.state)

-- The states in which `buildCancelOperation` throws.
unfoldable pub check_cancellable : LimitOrderState → Result (Unit {0})
check_cancellable cancelled = err order_not_found
check_cancellable filled = err invalid_operation
check_cancellable expired = err invalid_operation
check_cancellable _ = ok tt

-- `m * 2 ** e <= 1_000_000`
abbrev pub within_max_price : ℤ → ℤ → Bool
within_max_price (negsuc m) e = true
within_max_price (pos m) (pos e) = leb (m * 2 ^ e) 1000000
within_max_price (pos m) (negsuc e) = leb m (1000000 * 2 ^ suc e)

unfoldable pub is_target_price : Number → Bool
is_target_price (finite m e) = ltb_ℤ (pos 0) m && within_max_price m e
is_target_price infinite = false
is_target_price nan = false

-- `LimitOrderParamsSchema`
unfoldable pub is_limit_order_params : Chain → LimitOrderParams → Bool
is_limit_order_params c params =
    is_target_price params.target_price
    && ltb_ℤ (pos (c.now_ms / 1000)) params.expiry
    && c.is_valid_address params.token_in
    && c.is_valid_address params.token_out
    && c.is_valid_address params.pair_address
    && ltb_ℤ (pos 0) params.amount_in
    && not (params.token_in == params.token_out)

abbrev pub is_optional_address : Chain → Option Address → Bool
is_optional_address c none = true
is_optional_address c (some signer) = c.is_valid_address signer

abbrev pub is_pair : Option Address → Address → Bool
is_pair none pair_address = false
is_pair (some on_chain) pair_address = on_chain == pair_address

abbrev pub check_pair :
    Option (Address → Address → Result (Option Address)) → LimitOrderParams → Result (Unit {0})
check_pair none params = ok tt
check_pair (some get_pair_address) params =
    get_pair_address params.token_in params.token_out >>= λ on_chain.
    throw_if (not (is_pair on_chain params.pair_address)) validation

unfoldable pub build_cancel_operation :
    Chain → Text → Option Address → Result (Operation × Cancelled)
build_cancel_operation c order_id signer =
    throw_if (not (has_content order_id)) validation
    >> throw_if (not (is_optional_address c signer)) validation
    >> get_limit_order_status c.node order_id
    >>= λ status. check_cancellable status.state >>= λ cancellable.
        simulated c.node (cancel order_id (or_else signer c.public_key)) >>= λ value.
        parse_cancel_result value >>= λ amounts.
        ok (cancel order_id (or_else signer c.public_key), amounts)

unfoldable pub build_place_operation :
    Chain → LimitOrderParams → Option Address → Result (Operation × Text)
build_place_operation c params signer =
    throw_if (not (is_limit_order_params c params)) validation
    >> throw_if (not (is_optional_address c signer)) validation
    >> check_pair c.get_pair_address params
    >>= λ matches. simulated c.node (create_order params (or_else signer c.public_key)) >>= λ value.
        scval_to_string (some value) >>= λ order_id.
        ok (create_order params (or_else signer c.public_key), order_id)
