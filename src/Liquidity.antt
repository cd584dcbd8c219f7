-- ===== src/Liquidity.antt =====
-- src/modules/liquidity.ts: the quote for adding liquidity, and positions. Fractions of a pool are in basis
-- points; the source divides them by 10000 at the end.
pub mod Quoted
mod Tests
use coralswap_sdk.Common.{
  ℕ, ltb, ◌==◌, ◌||◌, ◌&&◌, not, if◌then◌else◌, Bool, true, false, Option, none, some, List, [],
  ◌∷◌, Result, ok, err, ◌>>=◌, ◌>>◌, throw_if, validation, ℤ, pos, ◌+ℤ◌, ◌-ℤ◌, ◌*ℤ◌, quot, divide,
  ltb_ℤ, leb_ℤ, keep,
}
use coralswap_sdk.Market.{Market, Client, Address}
use coralswap_sdk.PairMath.{min_liquidity, sqrt}

-- `PRECISION.PRICE_SCALE`
abbrev pub price_scale : ℤ
price_scale = pos 100_000_000_000_000

pub record AddLiquidityQuote : Type 0 where
  pub amount_a : ℤ
  pub amount_b : ℤ
  pub estimated_lp_tokens : ℤ
  pub share_of_pool_bps : ℤ
  pub price_a_per_b : ℤ
  pub price_b_per_a : ℤ

-- `AddLiquidityQuoteParamsSchema`
abbrev pub quote_params_ok : Client → (token_a token_b : Address) → ℤ → Bool
quote_params_ok client token_a token_b amount_a_desired =
    client.is_valid_address token_a
    && client.is_valid_address token_b
    && ltb_ℤ (pos 0) amount_a_desired
    && not (token_a == token_b)

-- No pair yet: any ratio is accepted.
abbrev pub first_quote : ℤ → Result AddLiquidityQuote
first_quote amount = do
  root ← sqrt (amount *ℤ amount)
  ok (record {
    amount_a = amount;
    amount_b = amount;
    estimated_lp_tokens = root -ℤ min_liquidity;
    share_of_pool_bps = pos 10000;
    price_a_per_b = price_scale;
    price_b_per_a = price_scale;
  })

abbrev pub estimated_lp : (amount_a amount_b reserve_a total_supply : ℤ) → Result ℤ
estimated_lp amount_a amount_b reserve_a total_supply =
    if ltb_ℤ (pos 0) total_supply
    then divide (amount_a *ℤ total_supply) reserve_a
    else (sqrt (amount_a *ℤ amount_b) >>= λ root. ok (root -ℤ min_liquidity))

abbrev pub share_after : (lp total_supply : ℤ) → Result ℤ
share_after lp total_supply =
    if ltb_ℤ (pos 0) total_supply
    then divide (lp *ℤ pos 10000) (total_supply +ℤ lp)
    else ok (pos 10000)

abbrev pub price_of : (reserve other : ℤ) → ℤ
price_of reserve other =
    if ltb_ℤ (pos 0) reserve then quot (other *ℤ price_scale) reserve else pos 0

-- The quote in a pool with these reserves and this supply.
unfoldable pub pool_quote : (amount reserve_a reserve_b total_supply : ℤ) → Result AddLiquidityQuote
pool_quote amount reserve_a reserve_b total_supply = do
  amount_b_optimal ← divide (amount *ℤ reserve_b) reserve_a
  lp ← estimated_lp amount amount_b_optimal reserve_a total_supply
  share ← share_after lp total_supply
  ok (record {
    amount_a = amount;
    amount_b = amount_b_optimal;
    estimated_lp_tokens = lp;
    share_of_pool_bps = share;
    price_a_per_b = price_of reserve_a reserve_b;
    price_b_per_a = price_of reserve_b reserve_a;
  })

-- The division for the optimal amount comes before the supply is read; both may throw.
abbrev pub quote_in : Market → Option Address → Address → ℤ → Result AddLiquidityQuote
quote_in m none token_a amount = first_quote amount
quote_in m (some pair) token_a amount = do
  (reserve0, reserve1) ← m.get_reserves pair
  (token0, token1) ← m.get_tokens pair
  let a_first = token0 == token_a
  let reserve_a = if a_first then reserve0 else reserve1
  let reserve_b = if a_first then reserve1 else reserve0
  total_supply ← (divide (amount *ℤ reserve_b) reserve_a >>= λ _. m.total_supply pair)
  pool_quote amount reserve_a reserve_b total_supply

unfoldable pub get_add_liquidity_quote :
    Market → Client → (token_a token_b : Address) → ℤ → Result AddLiquidityQuote
get_add_liquidity_quote m client token_a token_b amount =
    throw_if (not (quote_params_ok client token_a token_b amount)) validation
    >> quote_in m (m.get_pair_address token_a token_b) token_a amount

pub record LpPosition : Type 0 where
  pub pair_address : Address
  pub lp_token_address : Address
  pub balance : ℤ
  pub total_supply : ℤ
  pub share_bps : ℤ
  pub token0_amount : ℤ
  pub token1_amount : ℤ

abbrev pub part_of : (whole balance total_supply : ℤ) → ℤ
part_of whole balance total_supply =
    if ltb_ℤ (pos 0) total_supply then quot (whole *ℤ balance) total_supply else pos 0

-- `lp_token` is `pair.getLPTokenAddress()`; the cache only saves asking it again.
unfoldable pub get_position :
    Market → (lp_token : Address → Result Address) → (pair owner : Address) → Result LpPosition
get_position m lp_token pair owner = do
  (reserve0, reserve1) ← m.get_reserves pair
  token ← lp_token pair
  balance ← m.balance token owner
  total_supply ← m.total_supply token
  ok (record {
    pair_address = pair;
    lp_token_address = token;
    balance = balance;
    total_supply = total_supply;
    share_bps = part_of (pos 10000) balance total_supply;
    token0_amount = part_of reserve0 balance total_supply;
    token1_amount = part_of reserve1 balance total_supply;
  })
