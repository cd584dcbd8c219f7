-- ===== src/StopLoss/Tests.antt =====
-- A stop loss at a price with a timestamp, and orders that are sorted.
use mathlib.Core.List.{Perm}
use coralswap_sdk.Common.{
  ℕ, ◌+◌, ◌≤◌, ◌≡◌, refl, true, false, ◌&&◌, none, some, List, [], ◌∷◌, keep, ok, err, stale_oracle,
  codes, pos, has_content, is_space,
}
use coralswap_sdk.StopLoss.{
  StopLossParams, active, DecodedOrder, StopLossOrder, OraclePriceSnapshot, priced, empty,
  filled_slot, create_stop_loss, Chain, get_oracle_price, assert_oracle_fresh, is_stop_loss_params,
  build_create_stop_loss_operation, is_stop_loss_triggered, enrich_order,
}
use coralswap_sdk.StopLoss.Query.{
  trigger_price, desc, StopLossOrderQuery, has_status, has_trigger, insert, sort, apply_order_query,
  get_stop_loss_orders,
}
use coralswap_sdk.StopLoss.Trigger.{build_create_stop_loss_operation_above}
use coralswap_sdk.StopLoss.Sorted.{Sorted, apply_order_query-Sorted}

abbrev order_at : (price : ℕ) → DecodedOrder
order_at price = record {
  id = codes "o";
  owner = 1;
  token_in = 2;
  token_out = 3;
  amount = pos 10;
  trigger_price = pos price;
  created_at = none;
  oracle_asset = codes "XLM";
  status = active;
}

abbrev chain : Chain
chain = record {
  now_ms = 1000000;
  is_valid_address = λ a. true;
  get_price = λ asset. ok (some (priced (some (pos 120)) (some 800000)));
  get_order = λ id. ok none;
  orders_for_user =
      λ a. ok (some (filled_slot (order_at 100) ∷ empty ∷ filled_slot (order_at 150) ∷ []));
  submit = λ op signer. ok (some 5);
}

abbrev params : StopLossParams
params = record {
  token_in = 2;
  token_out = 3;
  amount = pos 10;
  trigger_price = pos 100;
  pair_address = 4;
  oracle_asset = codes "XLM";
}

builds : build_create_stop_loss_operation chain params 1 none ≡ ok (create_stop_loss params 1)
unfolding build_create_stop_loss_operation is_stop_loss_params get_oracle_price assert_oracle_fresh
    has_content is_space
builds = refl

too_old : is_stop_loss_triggered chain (pos 100) (codes "XLM") (some 100000) ≡ err stale_oracle
unfolding is_stop_loss_triggered get_oracle_price assert_oracle_fresh
too_old = refl

build_create_stop_loss_operation_above_example :
    (is_stop_loss_triggered chain (pos 100) (codes "XLM") none ≡ ok false)
    × ((s : OraclePriceSnapshot) × (get_oracle_price chain (codes "XLM") ≡ ok s)
        × ((t : ℕ) → s.timestamp ≡ some t → 1000000 ≤ t + 300000))
build_create_stop_loss_operation_above_example =
    build_create_stop_loss_operation_above chain params 1 none builds

abbrev enriched : (price distance : ℕ) → StopLossOrder
enriched price distance = record {
  order = order_at price;
  current_price = pos 120;
  triggered = false;
  distance_percent = pos distance;
}

abbrev query : StopLossOrderQuery
query = record {
  statuses = some (active ∷ []);
  triggered = some false;
  sort_by = some trigger_price;
  sort_direction = none;
}

listed : get_stop_loss_orders chain 1 query none ≡ ok (enriched 100 2000 ∷ [])
unfolding get_stop_loss_orders enrich_order get_oracle_price assert_oracle_fresh apply_order_query
    sort insert
listed = refl

abbrev orders : List StopLossOrder
orders = enriched 90 3333 ∷ enriched 110 909 ∷ enriched 100 2000 ∷ []

apply_order_query-Sorted_example :
    Sorted trigger_price desc (apply_order_query orders query)
    × Perm (apply_order_query orders query) (
        keep
          (λ order. has_trigger (some false) order && has_status (some (active ∷ [])) order)
          orders)
apply_order_query-Sorted_example = apply_order_query-Sorted orders query
