-- ===== src/Swap/Quote.antt =====
-- The quotes of src/modules/swap.ts: slippage, direct and multi-hop quotes, and the dry run. Tokens
-- are contract addresses, which `resolveTokenIdentifier` leaves as they are.
use mathlib.Core.List.{foldl}
use coralswap_sdk.Common.{
  ℕ, leb, ◌||◌, if◌then◌else◌, ℤ, pos, ◌+ℤ◌, ◌-ℤ◌, ◌*ℤ◌, quot, ltb_ℤ, Option, none, some, List, [],
  ◌∷◌, length, Result, ok, err, validation, or_else, ◌>>=◌,
}
use coralswap_sdk.Market.{Market, Client, Double, Address}
use coralswap_sdk.PairMath.{bps_denominator}
use coralswap_sdk.Swap.Hops.{Side, read_side, get_amount_out, get_amount_in, calculate_price_impact}

pub data TradeType : Type 0 where
  exact_in exact_out : TradeType

pub record SwapQuote : Type 0 where
  pub token_in : Address
  pub token_out : Address
  pub amount_in : ℤ
  pub amount_out : ℤ
  pub amount_out_min : ℤ
  pub price_impact_bps : ℤ
  pub fee_bps : ℤ
  pub fee_amount : ℤ
  pub path : List Address
  pub deadline : ℕ

pub record SwapRequest : Type 0 where
  pub token_in : Address
  pub token_out : Address
  pub amount : ℤ
  pub trade_type : TradeType
  pub path : Option (List Address)
  pub slippage_bps : Option ℤ
  pub deadline : Option ℕ

-- `DEFAULTS.slippageBps`; it is never absent, so the test for a missing value cannot fire.
unfoldable pub resolve_slippage_bps : Client → Option ℤ → Result ℤ
resolve_slippage_bps client requested =
    let slippage_bps = or_else requested (or_else client.default_slippage_bps (pos 50)) in
    if ltb_ℤ slippage_bps (pos 0) || ltb_ℤ (pos 5000) slippage_bps
    then err validation
    else ok slippage_bps

unfoldable pub resolve_path : SwapRequest → List Address
resolve_path request = elim request.path [
  | none ↦ request.token_in ∷ request.token_out ∷ []
  | some path ↦ if leb 2 (length path) then path else request.token_in ∷ request.token_out ∷ []
]

-- `amount - (amount * slippageBps) / BPS_DENOMINATOR`, and the same with a plus.
unfoldable pub less_slippage : ℤ → ℤ → ℤ
less_slippage amount slippage_bps = amount -ℤ quot (amount *ℤ slippage_bps) bps_denominator

unfoldable pub plus_slippage : ℤ → ℤ → ℤ
plus_slippage amount slippage_bps = amount +ℤ quot (amount *ℤ slippage_bps) bps_denominator

-- `amountIn`, `amountOut` and `amountOutMin` of a quote.
pub record Amounts : Type 0 where
  pub amount_in : ℤ
  pub amount_out : ℤ
  pub amount_out_min : ℤ

-- The two branches on `request.tradeType` of `getDirectQuote`.
unfoldable pub direct_amounts : TradeType → ℤ → ℤ → Side → Result Amounts
direct_amounts exact_in amount slippage_bps side = do
  amount_out ← get_amount_out amount side.reserve_in side.reserve_out side.fee_bps
  ok (record {
    amount_in = amount;
    amount_out = amount_out;
    amount_out_min = less_slippage amount_out slippage_bps;
  })
direct_amounts exact_out amount slippage_bps side = do
  base_amount_in ← get_amount_in amount side.reserve_in side.reserve_out side.fee_bps
  ok (record {
    amount_in = plus_slippage base_amount_in slippage_bps;
    amount_out = amount;
    amount_out_min = amount;
  })

unfoldable pub get_direct_quote :
    Market → Client → SwapRequest → Address → Address → Result SwapQuote
get_direct_quote m client request token_in token_out = do
  side ← read_side m token_in token_out
  slippage_bps ← resolve_slippage_bps client request.slippage_bps
  a ← direct_amounts request.trade_type request.amount slippage_bps side
  ok (record {
    token_in = token_in;
    token_out = token_out;
    amount_in = a.amount_in;
    amount_out = a.amount_out;
    amount_out_min = a.amount_out_min;
    price_impact_bps =
        calculate_price_impact a.amount_in a.amount_out side.reserve_in side.reserve_out;
    fee_bps = side.fee_bps;
    fee_amount = quot (a.amount_in *ℤ side.fee_bps) bps_denominator;
    path = token_in ∷ token_out ∷ [];
    deadline = or_else request.deadline client.get_deadline;
  })

abbrev pub retain_after_fee : ℤ → ℤ → ℤ
retain_after_fee remaining fee_bps =
    quot (remaining *ℤ (bps_denominator -ℤ fee_bps)) bps_denominator

unfoldable pub compute_compounded_fee_bps : List ℤ → ℤ
compute_compounded_fee_bps fees = bps_denominator -ℤ foldl retain_after_fee (pos 10000) fees

-- On JavaScript's floating-point numbers, which are a parameter.
unfoldable pub compound_price_impact : Double → List ℤ → ℤ
compound_price_impact d impacts =
    d.round (d.times (d.minus (d.from_ℤ (pos 1)) (product impacts)) (d.from_ℤ (pos 10000)))
  where
    product : List ℤ → d.Number
    product =
        foldl
          (λ acc bps.
            d.times acc (d.minus (d.from_ℤ (pos 1)) (d.over (d.from_ℤ bps) (d.from_ℤ (pos 10000)))))
          (d.from_ℤ (pos 1))
