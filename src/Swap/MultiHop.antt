-- ===== src/Swap/MultiHop.antt =====
-- `getQuote`, the multi-hop quotes, `simulateSwap` and `buildSwapOperation` of src/modules/swap.ts.
use mathlib.Core.List.{foldl}
use coralswap_sdk.Common.{
  ℕ, ◌==◌, leb, ltb, ◌||◌, ◌&&◌, not, Bool, true, ℤ, pos, ◌+ℤ◌, ◌*ℤ◌, quot, is_zero, ltb_ℤ, leb_ℤ,
  Option, none, some, List, [], ◌∷◌, map, length, Result, ok, err, validation, plain,
  insufficient_liquidity, throw_if, or_else, ◌>>=◌, ◌>>◌,
}
use coralswap_sdk.Market.{Market, Client, Double, Address}
use coralswap_sdk.PairMath.{bps_denominator}
use coralswap_sdk.Swap.Hops.{
  HopResult, find_pair, is_token0, oriented, get_amount_out, calculate_price_impact, compute_hops,
  compute_hops_reverse,
}
use coralswap_sdk.Swap.Quote.{
  TradeType, exact_in, exact_out, SwapQuote, SwapRequest, resolve_slippage_bps, resolve_path,
  less_slippage, plus_slippage, get_direct_quote, compute_compounded_fee_bps, compound_price_impact,
}

-- The amounts in and out of a list of hops; `hops[0]` of an empty list is a TypeError.
unfoldable pub ends : List HopResult → Result (ℤ × ℤ)
ends [] = err plain
ends (hop ∷ hops) = ok (hop.amount_in, foldl (λ amount h. h.amount_out) hop.amount_out hops)

abbrev pub total_fee : List HopResult → ℤ
total_fee hops = foldl (λ acc h. acc +ℤ h.fee_amount) (pos 0) hops

abbrev pub first_token : List Address → Address
first_token [] = 0
first_token (token ∷ path) = token

abbrev pub last_token : List Address → Address
last_token path = foldl (λ last token. token) 0 path

-- The quote for computed hops, on the request's path.
abbrev pub hops_quote : Double → List Address → ℕ → List HopResult → ℤ → ℤ → ℤ → SwapQuote
hops_quote d path deadline hops amount_in amount_out amount_out_min = record {
  token_in = first_token path;
  token_out = last_token path;
  amount_in = amount_in;
  amount_out = amount_out;
  amount_out_min = amount_out_min;
  price_impact_bps = compound_price_impact d (map (λ h. h.price_impact_bps) hops);
  fee_bps = compute_compounded_fee_bps (map (λ h. h.fee_bps) hops);
  fee_amount = total_fee hops;
  path = path;
  deadline = deadline;
}

unfoldable pub get_multi_hop_quote_internal :
    Double → Market → Client → SwapRequest → List Address → Result SwapQuote
get_multi_hop_quote_internal d m client request path = elim request.trade_type [
  | exact_out ↦ err validation
  | exact_in ↦ do
    hops ← compute_hops m request.amount path
    (amount_in, amount_out) ← ends hops
    slippage_bps ← resolve_slippage_bps client request.slippage_bps
    ok (
        hops_quote d path (or_else request.deadline client.get_deadline) hops amount_in amount_out
          (less_slippage amount_out slippage_bps))
]

-- By the length of the path: too short, direct, or through other tokens.
abbrev pub quote_along : Double → Market → Client → SwapRequest → List Address → Result SwapQuote
quote_along d m client request [] = err validation
quote_along d m client request (token ∷ []) = err validation
quote_along d m client request (token_in ∷ token_out ∷ []) =
    get_direct_quote m client request token_in token_out
quote_along d m client request (token_in ∷ token ∷ next ∷ path) =
    get_multi_hop_quote_internal d m client request (token_in ∷ token ∷ next ∷ path)

unfoldable pub get_quote : Double → Market → Client → SwapRequest → Result SwapQuote
get_quote d m client request = quote_along d m client request (resolve_path request)

-- `MultiHopSwapRequest`, and the checks of `multiHopSwapRequestSchema`.
pub record MultiHopSwapRequest : Type 0 where
  pub path : List Address
  pub amount : ℤ
  pub trade_type : TradeType
  pub slippage_bps : Option ℤ
  pub deadline : Option ℕ
  pub to : Option Address

abbrev pub distinct_neighbours : List Address → Bool
distinct_neighbours [] = true
distinct_neighbours (a ∷ []) = true
distinct_neighbours (a ∷ b ∷ path) = not (a == b) && distinct_neighbours (b ∷ path)

abbrev pub all_valid : Client → List Address → Bool
all_valid client [] = true
all_valid client (a ∷ path) = client.is_valid_address a && all_valid client path

abbrev pub within : Option ℤ → ℤ → ℤ → Bool
within none low high = true
within (some x) low high = leb_ℤ low x && leb_ℤ x high

unfoldable pub is_multi_hop_request : Client → MultiHopSwapRequest → Bool
is_multi_hop_request client r =
    all_valid client r.path
    && (leb 3 (length r.path)
        && (distinct_neighbours r.path
            && (ltb_ℤ (pos 0) r.amount
                && (within r.slippage_bps (pos 0) (pos 5000)
                    && (positive_deadline r.deadline && valid_to r.to)))))
  where
    positive_deadline : Option ℕ → Bool
    positive_deadline none = true
    positive_deadline (some t) = ltb 0 t

    valid_to : Option Address → Bool
    valid_to none = true
    valid_to (some a) = client.is_valid_address a

-- Forward or backward, by the trade type.
abbrev pub hops_for : Market → TradeType → ℤ → List Address → Result (List HopResult)
hops_for m exact_out amount path = compute_hops_reverse m amount path
hops_for m exact_in amount path = compute_hops m amount path

abbrev pub quoted_in : TradeType → ℤ → ℤ → ℤ
quoted_in exact_out amount slippage_bps = plus_slippage amount slippage_bps
quoted_in exact_in amount slippage_bps = amount

abbrev pub quoted_out_min : TradeType → ℤ → ℤ → ℤ
quoted_out_min exact_out amount slippage_bps = amount
quoted_out_min exact_in amount slippage_bps = less_slippage amount slippage_bps

unfoldable pub get_multi_hop_quote :
    Double → Market → Client → MultiHopSwapRequest → Result (SwapQuote × List HopResult)
get_multi_hop_quote d m client request = do
  throw_if (not (is_multi_hop_request client request)) validation
  hops ← hops_for m request.trade_type request.amount request.path
  (base_amount_in, amount_out) ← ends hops
  slippage_bps ← resolve_slippage_bps client request.slippage_bps
  ok (
    hops_quote d request.path (or_else request.deadline client.get_deadline) hops
        (quoted_in request.trade_type base_amount_in slippage_bps) amount_out
        (quoted_out_min request.trade_type amount_out slippage_bps),
    hops,
  )

-- `SwapSimulationResult`; the execution price is the fraction of the two amounts.
pub record SwapSimulation : Type 0 where
  pub amount_out : ℤ
  pub price_impact_bps : ℤ
  pub fee_amount : ℤ
  pub execution_price : ℤ × ℤ
  pub high_price_impact : Bool

unfoldable pub resolve_pair : Market → Option Address → Address → Address → Result Address
resolve_pair m none token_in token_out = find_pair m token_in token_out
resolve_pair m (some pair) token_in token_out = ok pair

unfoldable pub simulate_swap :
    Market → Client → Address → Address → ℤ → Option Address → Result SwapSimulation
simulate_swap m client token_in token_out amount_in pair_address = do
  throw_if
      (not (client.is_valid_address token_in)
        || not (client.is_valid_address token_out)
        || leb_ℤ amount_in (pos 0)
        || token_in == token_out)
      validation
  pair ← resolve_pair m pair_address token_in token_out
  (reserve0, reserve1) ← m.get_reserves pair
  fee_bps ← m.get_dynamic_fee pair
  throw_if (is_zero reserve0 || is_zero reserve1) insufficient_liquidity
  is_token0_in ← is_token0 m pair token_in
  let side = oriented is_token0_in (reserve0, reserve1) fee_bps
  amount_out ← get_amount_out amount_in side.reserve_in side.reserve_out fee_bps
  let impact = calculate_price_impact amount_in amount_out side.reserve_in side.reserve_out
  ok (record {
    amount_out = amount_out;
    price_impact_bps = impact;
    fee_amount = quot (amount_in *ℤ fee_bps) bps_denominator;
    execution_price = (amount_out, amount_in);
    high_price_impact = ltb_ℤ (pos 500) impact;
  })
