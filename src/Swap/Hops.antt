-- ===== src/Swap/Hops.antt =====
-- The hop by hop computation of src/modules/swap.ts: `computeHops` and `computeHopsReverse`.
use mathlib.Core.List.{reverse}
use coralswap_sdk.Common.{
  ◌==◌, ◌||◌, if◌then◌else◌, Bool, ℤ, pos, ◌-ℤ◌, ◌*ℤ◌, quot, is_zero, none, some, List, [], ◌∷◌,
  Result, ok, err, pair_not_found, insufficient_liquidity, throw_if, ◌>>=◌, ◌>>◌,
}
use coralswap_sdk.Market.{Market, Address}
use coralswap_sdk.PairMath
use coralswap_sdk.PairMath.{bps_denominator}

-- `getAmountOut` and `getAmountIn` of the class are, line by line, those of src/utils/pair-math.ts.
abbrev pub get_amount_out : ℤ → ℤ → ℤ → ℤ → Result ℤ
get_amount_out = PairMath.get_amount_out

abbrev pub get_amount_in : ℤ → ℤ → ℤ → ℤ → Result ℤ
get_amount_in = PairMath.get_amount_in

-- `HopResult`
pub record HopResult : Type 0 where
  pub token_in : Address
  pub token_out : Address
  pub amount_in : ℤ
  pub amount_out : ℤ
  pub fee_bps : ℤ
  pub fee_amount : ℤ
  pub price_impact_bps : ℤ

-- Both divisors are tested against zero first.
unfoldable pub calculate_price_impact : ℤ → ℤ → ℤ → ℤ → ℤ
calculate_price_impact amount_in amount_out reserve_in reserve_out =
    if is_zero reserve_in || is_zero reserve_out
    then pos 10000
    else if is_zero ideal_out
    then pos 10000
    else quot ((ideal_out -ℤ amount_out) *ℤ pos 10000) ideal_out
  where
    ideal_out : ℤ
    ideal_out = quot (amount_in *ℤ reserve_out) reserve_in

-- What both loops read of the pair between two tokens: the reserves, the input's side first, and the
-- fee.
pub record Side : Type 0 where
  pub reserve_in : ℤ
  pub reserve_out : ℤ
  pub fee_bps : ℤ

unfoldable pub is_token0 : Market → Address → Address → Result Bool
is_token0 m pair token_in = do (token0, token1) ← m.get_tokens pair; ok (token0 == token_in)

unfoldable pub oriented : Bool → ℤ × ℤ → ℤ → Side
oriented is_token0_in (reserve0, reserve1) fee = record {
  reserve_in = if is_token0_in then reserve0 else reserve1;
  reserve_out = if is_token0_in then reserve1 else reserve0;
  fee_bps = fee;
}

-- `const pairAddress = await getPairAddress(…); if (!pairAddress) throw new PairNotFoundError(…)`
unfoldable pub find_pair : Market → Address → Address → Result Address
find_pair m token_in token_out = elim (m.get_pair_address token_in token_out) [
  | none ↦ err pair_not_found
  | some pair ↦ ok pair
]

unfoldable pub read_side : Market → Address → Address → Result Side
unfolding find_pair is_token0 oriented
read_side m token_in token_out = do
  pair ← find_pair m token_in token_out
  reserves ← m.get_reserves pair
  fee ← m.get_dynamic_fee pair
  is_token0_in ← is_token0 m pair token_in
  ok (oriented is_token0_in reserves fee)

-- The object that either loop adds to `hops`.
abbrev pub make_hop : Address → Address → Side → ℤ → ℤ → HopResult
make_hop token_in token_out side amount_in amount_out = record {
  token_in = token_in;
  token_out = token_out;
  amount_in = amount_in;
  amount_out = amount_out;
  fee_bps = side.fee_bps;
  fee_amount = quot (amount_in *ℤ side.fee_bps) bps_denominator;
  price_impact_bps = calculate_price_impact amount_in amount_out side.reserve_in side.reserve_out;
}

unfoldable pub hop_forward : Market → ℤ → Address → Address → Result HopResult
hop_forward m current token_in token_out = do
  side ← read_side m token_in token_out
  throw_if (is_zero side.reserve_in || is_zero side.reserve_out) insufficient_liquidity
  amount_out ← get_amount_out current side.reserve_in side.reserve_out side.fee_bps
  ok (make_hop token_in token_out side current amount_out)

unfoldable pub hop_backward : Market → ℤ → Address → Address → Result HopResult
hop_backward m current token_in token_out = do
  side ← read_side m token_in token_out
  throw_if (is_zero side.reserve_in || is_zero side.reserve_out) insufficient_liquidity
  amount_in ← get_amount_in current side.reserve_in side.reserve_out side.fee_bps
  ok (make_hop token_in token_out side amount_in current)

-- The loop over consecutive tokens of the path; `currentAmountIn` is the amount argument.
unfoldable pub compute_hops : Market → ℤ → List Address → Result (List HopResult)
compute_hops m current [] = ok []
compute_hops m current (token_in ∷ []) = ok []
compute_hops m current (token_in ∷ token_out ∷ path) = do
  hop ← hop_forward m current token_in token_out
  hops ← compute_hops m hop.amount_out (token_out ∷ path)
  ok (hop ∷ hops)

-- The loop from the end of the path, on the path reversed; `hops.unshift` puts each hop in front.
unfoldable pub hops_from_end : Market → ℤ → List Address → List HopResult → Result (List HopResult)
hops_from_end m current [] hops = ok hops
hops_from_end m current (token_out ∷ []) hops = ok hops
hops_from_end m current (token_out ∷ token_in ∷ path) hops = do
  hop ← hop_backward m current token_in token_out
  hops_from_end m hop.amount_in (token_in ∷ path) (hop ∷ hops)

unfoldable pub compute_hops_reverse : Market → ℤ → List Address → Result (List HopResult)
unfolding hops_from_end
compute_hops_reverse m amount_out path = hops_from_end m amount_out (reverse path) []
