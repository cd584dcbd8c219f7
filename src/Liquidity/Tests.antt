-- ===== src/Liquidity/Tests.antt =====
-- A pool of 3000 and 7000, and quotes there.
use coralswap_sdk.Common.{ℕ, ◌+◌, ◌*◌, ◌≤◌, ◌≡◌, refl, arith, true, none, some, ok, pos}
use coralswap_sdk.Market.{Market, Client}
use coralswap_sdk.PairMath.{compute_burn}
use coralswap_sdk.Liquidity.{AddLiquidityQuote, pool_quote, get_add_liquidity_quote, get_position}
use coralswap_sdk.Liquidity.Quoted.{pool_quote_no_profit}

abbrev market : Market
market = record {
  get_pair_address = λ a b. some 12;
  get_reserves = λ pair. ok (pos 7000, pos 3000);
  get_dynamic_fee = λ pair. ok (pos 30);
  get_tokens = λ pair. ok (2, 1);
  total_supply = λ pair. ok (pos 4500);
  balance = λ pair owner. ok (pos 45);
}

abbrev client : Client
client = record {
  default_slippage_bps = none;
  get_deadline = 1200;
  public_key = 9;
  is_valid_address = λ a. true;
}

abbrev quote : AddLiquidityQuote
quote = record {
  amount_a = pos 1000;
  amount_b = pos 2333;
  estimated_lp_tokens = pos 1500;
  share_of_pool_bps = pos 2500;
  price_a_per_b = pos 233_333_333_333_333;
  price_b_per_a = pos 42_857_142_857_142;
}

quoted : get_add_liquidity_quote market client 1 2 (pos 1000) ≡ ok quote
unfolding get_add_liquidity_quote pool_quote
quoted = refl

held :
    get_position market (λ pair. ok 77) 12 9
    ≡ ok (record {
      pair_address = 12;
      lp_token_address = 77;
      balance = pos 45;
      total_supply = pos 4500;
      share_bps = pos 100;
      token0_amount = pos 70;
      token1_amount = pos 30;
    })
unfolding get_position
held = refl

pool_quote_no_profit_example :
    (q : AddLiquidityQuote) × (b : ℕ) × (l : ℕ) × (x : ℕ) × (y : ℕ) × (pool_quote
        (pos 1000)
        (pos 3000)
        (pos 7000)
        (pos 4500)
      ≡ ok q)
    × (q.amount_b ≡ pos b)
    × (q.estimated_lp_tokens ≡ pos l)
    × (b * 3000 ≤ 1000 * 7000)
    × (compute_burn (pos l) (pos (3000 + 1000)) (pos (7000 + b)) (pos (4500 + l))
        ≡ ok (pos x, pos y))
    × (x ≤ 1000)
    × (y ≤ b)
pool_quote_no_profit_example = pool_quote_no_profit 1000 3000 7000 4500 (omega arith) (omega arith)
