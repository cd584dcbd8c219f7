-- ===== src/StopLoss/Query.antt =====
-- `getStopLossOrders` and `applyOrderQuery` of src/modules/stop-loss.ts.
use coralswap_sdk.Common.{
  ℕ, Bool, true, false, not, ◌||◌, Option, none, some, or_else, List, [], ◌∷◌, keep, Result, ok,
  err, validation, decode_failed, throw_if, ◌>>=◌, ◌>>◌, if◌then◌else◌, ℤ, pos, ltb_ℤ,
}
use coralswap_sdk.Market.{Address}
use coralswap_sdk.StopLoss.{
  StopLossStatus, active, triggered_order, executed, cancelled_order, DecodedOrder, StopLossOrder,
  Slot, empty, broken, filled_slot, Chain, enrich_order,
}

pub data SortKey : Type 0 where
  created_at trigger_price distance_percent : SortKey

pub data SortDirection : Type 0 where
  asc desc : SortDirection

pub record StopLossOrderQuery : Type 0 where
  pub statuses : Option (List StopLossStatus)
  pub triggered : Option Bool
  pub sort_by : Option SortKey
  pub sort_direction : Option SortDirection

abbrev pub same_status : StopLossStatus → StopLossStatus → Bool
same_status active active = true
same_status triggered_order triggered_order = true
same_status executed executed = true
same_status cancelled_order cancelled_order = true
same_status _ _ = false

abbrev pub includes : List StopLossStatus → StopLossStatus → Bool
includes [] status = false
includes (s ∷ statuses) status = same_status s status || includes statuses status

-- An empty list of statuses does not filter.
abbrev pub has_status : Option (List StopLossStatus) → StopLossOrder → Bool
has_status none order = true
has_status (some []) order = true
has_status (some (s ∷ statuses)) order = includes (s ∷ statuses) order.order.status

abbrev pub same_bool : Bool → Bool → Bool
same_bool true b = b
same_bool false b = not b

abbrev pub has_trigger : Option Bool → StopLossOrder → Bool
has_trigger none order = true
has_trigger (some wanted) order = same_bool order.triggered wanted

abbrev pub sort_value : SortKey → StopLossOrder → ℤ
sort_value trigger_price order = order.order.trigger_price
sort_value distance_percent order = order.distance_percent
sort_value created_at order = pos (or_else order.order.created_at 0)

-- The comparison says that `left` belongs after `right`.
abbrev pub belongs_after : SortKey → SortDirection → (left right : StopLossOrder) → Bool
belongs_after key asc left right = ltb_ℤ (sort_value key right) (sort_value key left)
belongs_after key desc left right = ltb_ℤ (sort_value key left) (sort_value key right)

-- `sort` is stable: an order stays before those that it need not follow.
unfoldable pub insert :
    SortKey → SortDirection → StopLossOrder → List StopLossOrder → List StopLossOrder
insert key direction order [] = order ∷ []
insert key direction order (next ∷ rest) =
    let later = insert key direction order rest in
    if belongs_after key direction order next then next ∷ later else order ∷ next ∷ rest

unfoldable pub sort : SortKey → SortDirection → List StopLossOrder → List StopLossOrder
sort key direction [] = []
sort key direction (order ∷ orders) = insert key direction order (sort key direction orders)

unfoldable pub apply_order_query : List StopLossOrder → StopLossOrderQuery → List StopLossOrder
apply_order_query orders query =
    sort (or_else query.sort_by created_at) (or_else query.sort_direction desc)
      (keep (has_trigger query.triggered) (keep (has_status query.statuses) orders))

-- The orders of the slots that are not empty; a slot that cannot be decoded throws.
abbrev pub decode_slots : List Slot → Result (List DecodedOrder)
decode_slots [] = ok []
decode_slots (empty ∷ slots) = decode_slots slots
decode_slots (broken ∷ slots) = err decode_failed
decode_slots (filled_slot order ∷ slots) = decode_slots slots >>= λ orders. ok (order ∷ orders)

-- `Promise.all`; of several errors the first is taken.
abbrev pub enrich_all :
    Chain → (stale_after_ms : Option ℕ) → List DecodedOrder → Result (List StopLossOrder)
enrich_all c stale_after_ms [] = ok []
enrich_all c stale_after_ms (order ∷ orders) =
    let others = enrich_all c stale_after_ms orders in
    enrich_order c order stale_after_ms >>= λ enriched. others >>= λ rest. ok (enriched ∷ rest)

abbrev pub orders_in :
    Chain
    → StopLossOrderQuery
    → (stale_after_ms : Option ℕ) → Option (List Slot)
    → Result (List StopLossOrder)
orders_in c query stale_after_ms none = ok []
orders_in c query stale_after_ms (some slots) = decode_slots slots >>= λ orders.
    enrich_all c stale_after_ms orders >>= λ enriched. ok (apply_order_query enriched query)

unfoldable pub get_stop_loss_orders :
    Chain → Address → StopLossOrderQuery → (stale_after_ms : Option ℕ) → Result (List StopLossOrder)
get_stop_loss_orders c address query stale_after_ms =
    throw_if (not (c.is_valid_address address)) validation
    >> c.orders_for_user address
    >>= orders_in c query stale_after_ms
