-- ===== src/StopLoss.antt =====
-- Stop-loss orders (src/modules/stop-loss.ts): the price of the oracle and its age, the trigger, the checks of
-- a new order, and the orders of a user. What the contracts answer is a parameter.
pub mod Query
pub mod Trigger
pub mod Sorted
mod Tests
use coralswap_sdk.Common.{
  ℕ, ◌+◌, Bool, true, false, not, ◌&&◌, Option, none, some, or_else, List, [], ◌∷◌, Result, ok, err,
  validation, transaction, stale_oracle, decode_failed, throw_if, ◌>>=◌, ◌>>◌, Text, has_content,
  ltb, ◌==◌, if◌then◌else◌, ℤ, pos, ltb_ℤ, leb_ℤ, ◌-ℤ◌, ◌*ℤ◌, quot,
}
use coralswap_sdk.Market.{Address}

pub record StopLossParams : Type 0 where
  pub token_in : Address
  pub token_out : Address
  pub amount : ℤ
  pub trigger_price : ℤ
  pub pair_address : Address
  pub oracle_asset : Text

pub data StopLossStatus : Type 0 where
  active triggered_order executed cancelled_order : StopLossStatus

-- `DecodedStopLossOrder`
pub record DecodedOrder : Type 0 where
  pub id : Text
  pub owner : Address
  pub token_in : Address
  pub token_out : Address
  pub amount : ℤ
  pub trigger_price : ℤ
  pub created_at : Option ℕ
  pub oracle_asset : Text
  pub status : StopLossStatus

-- `distance_percent` is in hundredths of a percent, as before `Number(…) / 100`.
pub record StopLossOrder : Type 0 where
  pub order : DecodedOrder
  pub current_price : ℤ
  pub triggered : Bool
  pub distance_percent : ℤ

pub record OraclePriceSnapshot : Type 0 where
  pub price : ℤ
  pub timestamp : Option ℕ

-- What the oracle returns: a record that has a price, which may be missing, or a bare price.
pub data OracleValue : Type 0 where
  priced : (price : Option ℤ) (timestamp : Option ℕ) → OracleValue
  bare : (price : ℤ) → OracleValue

-- One slot of `orders_for_user`: empty, an order, or a value that cannot be decoded.
pub data Slot : Type 0 where
  empty broken : Slot
  filled_slot : DecodedOrder → Slot

pub data Operation : Type 0 where
  create_stop_loss : StopLossParams → (signer : Address) → Operation

-- The client: its clock, the simulations (a value where one succeeded and returned one), and
-- `submitTransaction`, which gives a hash where it succeeded.
pub record Chain : Type 0 where
  pub now_ms : ℕ
  pub is_valid_address : Address → Bool
  pub get_price : Text → Result (Option OracleValue)
  pub get_order : Text → Result (Option DecodedOrder)
  pub orders_for_user : Address → Result (Option (List Slot))
  pub submit : Operation → (signer : Address) → Result (Option ℕ)

abbrev pub default_stale_after_ms : ℕ
default_stale_after_ms = 300000

abbrev pub snapshot_of : Option OracleValue → Result OraclePriceSnapshot
snapshot_of none = err validation
snapshot_of (some (priced price timestamp)) =
    ok (record { price = or_else price (pos 0); timestamp = timestamp })
snapshot_of (some (bare price)) = ok (record { price = price; timestamp = none })

unfoldable pub get_oracle_price : Chain → Text → Result OraclePriceSnapshot
get_oracle_price c asset = c.get_price asset >>= snapshot_of

-- A price with no timestamp passes. `Date.now() - timestamp > staleAfterMs`
abbrev pub is_stale : (now_ms : ℕ) → Option ℕ → (stale_after_ms : ℕ) → Bool
is_stale now_ms none stale_after_ms = false
is_stale now_ms (some timestamp) stale_after_ms = ltb (timestamp + stale_after_ms) now_ms

unfoldable pub assert_oracle_fresh : Chain → OraclePriceSnapshot → Option ℕ → Result (Unit {0})
assert_oracle_fresh c snapshot stale_after_ms =
    throw_if (is_stale c.now_ms snapshot.timestamp (or_else stale_after_ms default_stale_after_ms))
      stale_oracle

unfoldable pub is_stop_loss_params : Chain → StopLossParams → Bool
is_stop_loss_params c params =
    c.is_valid_address params.token_in
    && c.is_valid_address params.token_out
    && ltb_ℤ (pos 0) params.amount
    && ltb_ℤ (pos 0) params.trigger_price
    && c.is_valid_address params.pair_address
    && has_content params.oracle_asset
    && not (params.token_in == params.token_out)

unfoldable pub build_create_stop_loss_operation :
    Chain → StopLossParams → (signer : Address) → (stale_after_ms : Option ℕ) → Result Operation
build_create_stop_loss_operation c params signer stale_after_ms =
    throw_if (not (is_stop_loss_params c params)) validation
    >> get_oracle_price c params.oracle_asset
    >>= λ current_price.
        assert_oracle_fresh c current_price stale_after_ms
        >> throw_if (leb_ℤ current_price.price params.trigger_price) validation
        >> ok (create_stop_loss params signer)

abbrev pub required : Option ℕ → Result ℕ
required none = err transaction
required (some tx_hash) = ok tx_hash

unfoldable pub create_stop_loss_order :
    Chain → StopLossParams → (signer : Address) → (stale_after_ms : Option ℕ) → Result ℕ
create_stop_loss_order c params signer stale_after_ms =
    build_create_stop_loss_operation c params signer stale_after_ms >>= λ op.
    c.submit op signer >>= required

unfoldable pub is_stop_loss_triggered :
    Chain → (trigger_price : ℤ) → (oracle_asset : Text) → (stale_after_ms : Option ℕ) → Result Bool
is_stop_loss_triggered c trigger_price oracle_asset stale_after_ms =
    get_oracle_price c oracle_asset >>= λ snapshot.
    assert_oracle_fresh c snapshot stale_after_ms >> ok (leb_ℤ snapshot.price trigger_price)

abbrev pub distance : (price trigger_price : ℤ) → ℤ
distance price trigger_price =
    if ltb_ℤ (pos 0) trigger_price
    then quot ((price -ℤ trigger_price) *ℤ pos 10000) trigger_price
    else pos 0

unfoldable pub enrich_order :
    Chain → DecodedOrder → (stale_after_ms : Option ℕ) → Result StopLossOrder
enrich_order c order stale_after_ms = get_oracle_price c order.oracle_asset >>= λ snapshot.
    assert_oracle_fresh c snapshot stale_after_ms
    >> ok (record {
      order = order;
      current_price = snapshot.price;
      triggered = leb_ℤ snapshot.price order.trigger_price;
      distance_percent = distance snapshot.price order.trigger_price;
    })

abbrev pub found : Option DecodedOrder → Result DecodedOrder
found none = err validation
found (some order) = ok order

unfoldable pub get_stop_loss : Chain → Text → (stale_after_ms : Option ℕ) → Result StopLossOrder
get_stop_loss c order_id stale_after_ms =
    throw_if (not (has_content order_id)) validation
    >> (c.get_order order_id >>= found)
    >>= λ order. enrich_order c order stale_after_ms
