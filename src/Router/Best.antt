-- ===== src/Router/Best.antt =====
-- `findOptimalPath` of src/modules/router.ts: quoting every path and choosing one.
use mathlib.Core.List.{foldl}
use coralswap_sdk.Common.{
  Bool, true, ◌||◌, Option, none, some, or_else, List, [], ◌∷◌, map, Result, ok, err, plain,
  throw_if, ◌>>=◌, ◌>>◌, if◌then◌else◌, ℤ, pos, ◌+ℤ◌, ltb_ℤ, leb_ℤ,
}
use coralswap_sdk.Market.{Market, Client, Double, Address}
use coralswap_sdk.Swap.Hops.{HopResult, compute_hops_reverse}
use coralswap_sdk.Swap.Quote.{
  TradeType, exact_in, exact_out, SwapQuote, less_slippage, plus_slippage, compound_price_impact,
}
use coralswap_sdk.Swap.MultiHop.{
  total_fee, first_token, last_token, ends, get_quote, get_multi_hop_quote,
}

-- A quote with the bound that the router puts on the input.
pub record BoundQuote : Type 0 where
  pub quote : SwapQuote
  pub max_amount_in : Option ℤ

pub record OptimalPath : Type 0 where
  pub path : List Address
  pub bound : BoundQuote

-- `DEFAULTS.slippageBps` is 50.
unfoldable pub get_slippage_bps : Client → Option ℤ → Result ℤ
get_slippage_bps client requested =
    let value = or_else requested (or_else client.default_slippage_bps (pos 50)) in
    throw_if (leb_ℤ value (pos 0) || ltb_ℤ (pos 10000) value) plain >> ok value

abbrev pub total_fee_bps : List HopResult → ℤ
total_fee_bps hops = foldl (λ acc h. acc +ℤ h.fee_bps) (pos 0) hops

-- The largest input of this quote is set again, to the same, by `applySlippageBound`.
unfoldable pub build_exact_out_multi_hop_quote :
    Double → Market → Client → List Address → (amount_out slippage_bps : ℤ) → Result SwapQuote
build_exact_out_multi_hop_quote d m client path amount_out slippage_bps =
    compute_hops_reverse m amount_out path >>= λ hops. ends hops >>= λ amounts. ok (record {
      token_in = first_token path;
      token_out = last_token path;
      amount_in = amounts.0;
      amount_out = amount_out;
      amount_out_min = amount_out;
      price_impact_bps = compound_price_impact d (map (λ h. h.price_impact_bps) hops);
      fee_bps = total_fee_bps hops;
      fee_amount = total_fee hops;
      path = path;
      deadline = client.get_deadline;
    })

unfoldable pub apply_slippage_bound : SwapQuote → TradeType → (slippage_bps : ℤ) → BoundQuote
apply_slippage_bound quote exact_in slippage_bps = record {
  quote = record quote { amount_out_min = less_slippage quote.amount_out slippage_bps };
  max_amount_in = none;
}
apply_slippage_bound quote exact_out slippage_bps = record {
  quote = record quote { amount_out_min = quote.amount_out };
  max_amount_in = some (plus_slippage quote.amount_in slippage_bps);
}

abbrev pub quote_through :
    Double
    → Market
    → Client
    → TradeType
    → (amount slippage_bps : ℤ) → List Address
    → Result SwapQuote
quote_through d m client exact_out amount slippage_bps path =
    build_exact_out_multi_hop_quote d m client path amount slippage_bps
quote_through d m client exact_in amount slippage_bps path =
    get_multi_hop_quote d m client (record {
      path = path;
      amount = amount;
      trade_type = exact_in;
      slippage_bps = some slippage_bps;
      deadline = none;
      to = none;
    })
    >>= λ quoted. ok quoted.0

-- A path of two tokens is quoted as a direct swap.
abbrev pub quote_path :
    Double
    → Market
    → Client
    → TradeType
    → (amount slippage_bps : ℤ) → List Address
    → Result SwapQuote
quote_path d m client trade_type amount slippage_bps (a ∷ b ∷ []) = get_quote d m client (record {
  token_in = a;
  token_out = b;
  amount = amount;
  trade_type = trade_type;
  path = some (a ∷ b ∷ []);
  slippage_bps = some slippage_bps;
  deadline = none;
})
quote_path d m client trade_type amount slippage_bps path =
    quote_through d m client trade_type amount slippage_bps path

abbrev pub is_better : TradeType → Option OptimalPath → SwapQuote → Bool
is_better trade_type none quote = true
is_better exact_out (some best) quote = ltb_ℤ quote.amount_in best.bound.quote.amount_in
is_better exact_in (some best) quote = ltb_ℤ best.bound.quote.amount_out quote.amount_out

-- One path of the loop: a path whose quote throws is skipped.
abbrev pub consider :
    TradeType
    → (slippage_bps : ℤ) → Option OptimalPath
    → List Address
    → Result SwapQuote
    → Option OptimalPath
consider trade_type slippage_bps best path (err thrown) = best
consider trade_type slippage_bps best path (ok quote) =
    let bound = apply_slippage_bound quote trade_type slippage_bps in
    if is_better trade_type best bound.quote
    then some (record { path = path; bound = bound })
    else best

abbrev pub best_of :
    TradeType
    → (slippage_bps : ℤ) → (List Address → Result SwapQuote)
    → Option OptimalPath
    → List (List Address)
    → Option OptimalPath
best_of trade_type slippage_bps quote best [] = best
best_of trade_type slippage_bps quote best (path ∷ paths) =
    best_of trade_type slippage_bps quote (consider trade_type slippage_bps best path (quote path))
      paths
