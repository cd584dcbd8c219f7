-- ===== src/Swap/Tests.antt =====
-- A market of three tokens, runs of the quotes on it, and the theorems on swaps there.
use mathlib.Core.Path.{subst}
use coralswap_sdk.Common.{
  ℕ, ◌+◌, ◌-◌, ◌*◌, ◌/◌, ◌<◌, ◌≤◌, ◌≡◌, refl, arith, ltb, if◌then◌else◌, true, pos, none, some,
  List, [], ◌∷◌, ok, err, ok-injective, pair_not_found, ◌==◌,
}
use coralswap_sdk.Market.{Market, Client, Address}
use coralswap_sdk.PairMath.{get_amount_out, get_amount_in}
use coralswap_sdk.PairMath.Ranges.{IsFee}
use coralswap_sdk.Swap.Hops.{
  Side, HopResult, read_side, hop_forward, hop_backward, compute_hops, compute_hops_reverse,
  calculate_price_impact,
}
use coralswap_sdk.Swap.Quote.{
  plus_slippage, exact_in, exact_out, SwapQuote, SwapRequest, get_direct_quote,
  resolve_slippage_bps, direct_amounts, less_slippage,
}
use coralswap_sdk.Swap.Reverse.{FeesInRange, first_amount, last_amount, compute_hops_reverse_covers}
use coralswap_sdk.Swap.QuoteBounds.{Asked, get_direct_quote_exact_out, get_direct_quote_exact_in}
use coralswap_sdk.Swap.Forward.{Trades, compute_hops-Trades}

-- Tokens 1, 2 and 3; the pair of tokens `a < b` has address `10 a + b`, and `a` is its first token.
abbrev market : Market
market = record {
  get_pair_address = λ a b. if ltb a b then some (10 * a + b) else some (10 * b + a);
  get_reserves = λ pair. ok (pos 1_000_000, pos 2_000_000);
  get_dynamic_fee = λ pair. ok (pos 30);
  get_tokens = λ pair. if pair == 23 then ok (2, 3) else ok (1, 2);
  total_supply = λ pair. ok (pos 1_400_000);
  balance = λ pair owner. ok (pos 0);
}

abbrev client : Client
client = record {
  default_slippage_bps = none;
  get_deadline = 1200;
  public_key = 9;
  is_valid_address = λ a. true;
}

abbrev request : SwapRequest
request = record {
  token_in = 1;
  token_out = 2;
  amount = pos 5000;
  trade_type = exact_in;
  path = none;
  slippage_bps = none;
  deadline = none;
}

market-FeesInRange : FeesInRange market
market-FeesInRange pair fee e = subst IsFee (ok-injective e) (omega arith)

abbrev path : List Address
path = 1 ∷ 2 ∷ 3 ∷ []

-- The hops of `computeHopsReverse` for 3900 of token 3.
abbrev backward_hops : List HopResult
backward_hops =
    record {
      token_in = 1;
      token_out = 2;
      amount_in = pos 984;
      amount_out = pos 1960;
      fee_bps = pos 30;
      fee_amount = pos 2;
      price_impact_bps = pos 40;
    }
    ∷ record {
      token_in = 2;
      token_out = 3;
      amount_in = pos 1960;
      amount_out = pos 3900;
      fee_bps = pos 30;
      fee_amount = pos 5;
      price_impact_bps = pos 51;
    }
    ∷ []

hops_run : compute_hops_reverse market (pos 3900) path ≡ ok backward_hops
unfolding compute_hops_reverse hop_backward read_side calculate_price_impact get_amount_in
hops_run = refl

no_pair :
    compute_hops (record market { get_pair_address = λ a b. none }) (pos 10) (1 ∷ 2 ∷ [])
    ≡ err pair_not_found
unfolding compute_hops hop_forward read_side
no_pair = refl

compute_hops_reverse_covers_example :
    (hops' : List HopResult) × (i x : ℕ) × (first_amount (pos 3900) backward_hops ≡ pos i)
    × (compute_hops market (pos i) path ≡ ok hops')
    × (last_amount (pos i) hops' ≡ pos x)
    × (3900 ≤ x)
compute_hops_reverse_covers_example =
    compute_hops_reverse_covers market market-FeesInRange 3900 path hops_run

abbrev forward_hops : List HopResult
forward_hops =
    record {
      token_in = 1;
      token_out = 2;
      amount_in = pos 1000;
      amount_out = pos 1992;
      fee_bps = pos 30;
      fee_amount = pos 3;
      price_impact_bps = pos 40;
    }
    ∷ record {
      token_in = 2;
      token_out = 3;
      amount_in = pos 1992;
      amount_out = pos 3964;
      fee_bps = pos 30;
      fee_amount = pos 5;
      price_impact_bps = pos 50;
    }
    ∷ []

compute_hops-Trades_example : Trades market (pos 1000) path forward_hops
unfolding compute_hops hop_forward read_side calculate_price_impact get_amount_out
compute_hops-Trades_example = compute_hops-Trades market market-FeesInRange (pos 1000) path refl

-- 5000 of token 1, and 5000 of token 2, with the default tolerance of 0.5%.
abbrev quote_in : SwapQuote
quote_in = record {
  token_in = 1;
  token_out = 2;
  amount_in = pos 5000;
  amount_out = pos 9920;
  amount_out_min = pos 9871;
  price_impact_bps = pos 80;
  fee_bps = pos 30;
  fee_amount = pos 15;
  path = 1 ∷ 2 ∷ [];
  deadline = 1200;
}

get_direct_quote_exact_in_example :
    (quote_in.amount_in ≡ pos 5000)
    × ((side : Side) × (o k s : ℕ) × (read_side market 1 2 ≡ ok side)
        × (get_amount_out (pos 5000) side.reserve_in side.reserve_out side.fee_bps ≡ ok (pos o))
        × (quote_in.amount_out ≡ pos o)
        × (quote_in.amount_out_min ≡ pos k)
        × Asked client none s
        × (s ≤ 5000)
        × (o * (10000 - s) ≤ k * 10000)
        × (k * 10000 < o * (10000 - s) + 10000))
unfolding get_direct_quote read_side resolve_slippage_bps direct_amounts calculate_price_impact
    less_slippage get_amount_out
get_direct_quote_exact_in_example =
    get_direct_quote_exact_in market client market-FeesInRange request 1 2 {q = quote_in} refl refl

abbrev request_out : SwapRequest
request_out = record request { trade_type = exact_out }

abbrev quote_out : SwapQuote
quote_out = record {
  token_in = 1;
  token_out = 2;
  amount_in = pos 2526;
  amount_out = pos 5000;
  amount_out_min = pos 5000;
  price_impact_bps = pos 102;
  fee_bps = pos 30;
  fee_amount = pos 7;
  path = 1 ∷ 2 ∷ [];
  deadline = 1200;
}

get_direct_quote_exact_out_example :
    (quote_out.amount_out ≡ pos 5000)
    × (quote_out.amount_out_min ≡ pos 5000)
    × ((side : Side) × (wanted o i s : ℕ) × (read_side market 1 2 ≡ ok side)
        × (get_amount_in (pos 5000) side.reserve_in side.reserve_out side.fee_bps ≡ ok (pos i))
        × Asked client none s
        × (quote_out.amount_in ≡ pos (i + i * s / 10000))
        × (get_amount_out quote_out.amount_in side.reserve_in side.reserve_out side.fee_bps
            ≡ ok (pos o))
        × (pos 5000 ≡ pos wanted)
        × (wanted ≤ o))
unfolding get_direct_quote read_side resolve_slippage_bps direct_amounts calculate_price_impact
    plus_slippage get_amount_in
get_direct_quote_exact_out_example =
    get_direct_quote_exact_out market client market-FeesInRange request_out 1 2 {q = quote_out} refl
      refl

abbrev some_fees : List ℕ
some_fees = 30 ∷ 100 ∷ []
