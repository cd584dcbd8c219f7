-- ===== src/Trade/Tests.antt =====
-- A guarded swap of a given quote, a swap along two pairs, and the theorems there.
use coralswap_sdk.Common.{
  ltb, if◌then◌else◌, ◌+◌, ◌*◌, ◌==◌, Result, ◌≡◌, refl, arith, true, none, some, [], ◌∷◌, ok, err,
  not_configured, ℤ, pos, ◌-ℤ◌, ◌*ℤ◌, quot,
}
use coralswap_sdk.Market.{Market, Client, Double}
use coralswap_sdk.Swap.Quote.{
  exact_in, exact_out, SwapQuote, SwapRequest, resolve_path, resolve_slippage_bps, plus_slippage,
}
use coralswap_sdk.Submission.{threw}
use coralswap_sdk.Submission.Swap.{World, confirmed}
use coralswap_sdk.PriceGuard.{
  PriceGuardConfig, RedStonePayload, guard_passed, verify_redstone_payload, estimate_usd_value,
}
use coralswap_sdk.Swap.MultiHop.{
  MultiHopSwapRequest, get_multi_hop_quote, is_multi_hop_request, ends,
}
use coralswap_sdk.Swap.Hops.{compute_hops_reverse, hop_backward, read_side, calculate_price_impact}
use coralswap_sdk.PairMath.{get_amount_in}
use coralswap_sdk.Trade.{
  swap_exact_tokens_for_tokens, execute_multi_hop, Operation, swap_exact_in, Execution, send,
  quote_for, executed, build_swap_operation, execute, swap_with_price_guard,
}
use coralswap_sdk.Trade.Guarding.{Executes, Cleared, swap_with_price_guard-Cleared}

-- The integers stand in for the fractions, and the chain is not asked.
abbrev whole : Double
whole = record {
  Number = ℤ;
  from_ℤ = λ z. z;
  minus = λ a b. a -ℤ b;
  times = λ a b. a *ℤ b;
  over = quot;
  round = λ z. z;
}

abbrev silent : Market
silent = record {
  get_pair_address = λ a b. none;
  get_reserves = λ pair. err not_configured;
  get_dynamic_fee = λ pair. err not_configured;
  get_tokens = λ pair. err not_configured;
  total_supply = λ pair. err not_configured;
  balance = λ pair owner. err not_configured;
}

abbrev client : Client
client = record {
  default_slippage_bps = none;
  get_deadline = 1200;
  public_key = 9;
  is_valid_address = λ a. true;
}

abbrev request : SwapRequest
request = record {
  token_in = 1;
  token_out = 2;
  amount = pos 10_000_000_000;
  trade_type = exact_in;
  path = none;
  slippage_bps = none;
  deadline = none;
}

abbrev quote : SwapQuote
quote = record {
  token_in = 1;
  token_out = 2;
  amount_in = pos 10_000_000_000;
  amount_out = pos 9_990_000_000;
  amount_out_min = pos 9_900_000_000;
  price_impact_bps = pos 10;
  fee_bps = pos 30;
  fee_amount = pos 30_000_000;
  path = 1 ∷ 2 ∷ [];
  deadline = 1200;
}

abbrev payload : RedStonePayload
payload = record { timestamp_ms = 1000; price_of = λ s. some (pos 100_000_000) }

abbrev config : PriceGuardConfig
config = record {
  min_guarded_amount_usd = pos 10_000_000_000;
  max_deviation_bps = 200;
  max_payload_age_ms = 300_000;
}

abbrev submit : Operation → World
submit op = record { now = 9; submit = λ i. confirmed 77 5; lookup = λ i. threw }

abbrev execution : Execution
execution = send quote (swap_exact_in 9 1 2 (pos 10_000_000_000) (pos 9_900_000_000) 1200) submit

guarded :
    swap_with_price_guard whole silent client submit config 1 2 2000
      (some payload)
      none
      request
      (some quote)
    ≡ executed execution (some (guard_passed (pos 10)))
unfolding swap_with_price_guard execute build_swap_operation verify_redstone_payload
    estimate_usd_value resolve_path
guarded = refl

swap_with_price_guard-Cleared_example :
    (q : SwapQuote) × (quote_for whole silent client request (some quote) ≡ ok q)
    × Executes whole silent client submit none request q execution
    × Cleared whole silent client submit config 1 2 2000 payload q (some (guard_passed (pos 10)))
swap_with_price_guard-Cleared_example =
    swap_with_price_guard-Cleared whole silent client submit config 1 2 2000 payload none request
      (some quote) (some (guard_passed (pos 10))) execution (omega arith) guarded

-- Every pair of tokens `a < b` has address `10 a + b`.
abbrev market : Market
market = record {
  get_pair_address = λ a b. if ltb a b then some (10 * a + b) else some (10 * b + a);
  get_reserves = λ pair. ok (pos 1_000_000, pos 2_000_000);
  get_dynamic_fee = λ pair. ok (pos 30);
  get_tokens = λ pair. if pair == 23 then ok (2, 3) else ok (1, 2);
  total_supply = λ pair. ok (pos 1_400_000);
  balance = λ pair owner. ok (pos 0);
}

abbrev route : MultiHopSwapRequest
route = record {
  path = 1 ∷ 2 ∷ 3 ∷ [];
  amount = pos 3900;
  trade_type = exact_out;
  slippage_bps = some (pos 500);
  deadline = none;
  to = none;
}

abbrev routed : Result Execution
routed = execute_multi_hop whole market client submit route

abbrev value_of : Result Execution → Execution
value_of (ok x) = x
value_of (err thrown) = execution

routed-returned : routed ≡ ok (value_of routed)
unfolding execute_multi_hop get_multi_hop_quote is_multi_hop_request compute_hops_reverse
    hop_backward read_side calculate_price_impact get_amount_in resolve_slippage_bps plus_slippage
    ends
routed-returned = refl

-- 984 are required, and 1033 are spent.
routed_operation :
    (value_of routed).operation
    ≡ swap_exact_tokens_for_tokens 9 (1 ∷ 2 ∷ 3 ∷ []) (pos 1033) (pos 3900) 1200
unfolding execute_multi_hop get_multi_hop_quote is_multi_hop_request compute_hops_reverse
    hop_backward read_side calculate_price_impact get_amount_in resolve_slippage_bps plus_slippage
    ends
routed_operation = refl
