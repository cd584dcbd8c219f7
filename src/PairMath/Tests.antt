-- ===== src/PairMath/Tests.antt =====
-- Runs of the pair formulas, and their theorems at concrete pools.
use coralswap_sdk.Common.{ℕ, ◌+◌, ◌-◌, ◌*◌, ◌≤◌, ◌<◌, ◌≡◌, refl, arith, pos, negsuc, ok, err, range}
use coralswap_sdk.PairMath.{
  sqrt, sqrt_from, compute_mint, compute_burn, get_amount_out, get_amount_in,
}
use coralswap_sdk.PairMath.Root.{sqrt_bounds}
use coralswap_sdk.PairMath.Pricing.{get_amount_out_safe, get_amount_in_covers}
use coralswap_sdk.PairMath.Shares.{mint_burn_no_profit}

sqrt_runs : sqrt (pos 1_000_000_000_001) ≡ ok (pos 1_000_000)
unfolding sqrt sqrt_from
sqrt_runs = refl

get_amount_out_runs : get_amount_out (pos 100) (pos 1000) (pos 1000) (pos 30) ≡ ok (pos 90)
unfolding get_amount_out
get_amount_out_runs = refl

-- A fee above 100% turns the sign of the fee factor, and the output with it.
fee_over_100_percent : get_amount_out (pos 100) (pos 1000) (pos 1000) (pos 20000) ≡ ok (negsuc 110)
unfolding get_amount_out
fee_over_100_percent = refl

-- With a fee of exactly 100% no input buys anything, and the division by zero is an exception.
full_fee : get_amount_in (pos 100) (pos 1000) (pos 1000) (pos 10000) ≡ err range
unfolding get_amount_in
full_fee = refl

sqrt_bounds_example :
    (s : ℕ) × (sqrt (pos 17) ≡ ok (pos s)) × (s * s ≤ 17) × (17 < (s + 1) * (s + 1))
sqrt_bounds_example = sqrt_bounds 17

get_amount_out_safe_example :
    (o : ℕ) × (get_amount_out (pos 100) (pos 1000) (pos 1000) (pos 30) ≡ ok (pos o))
    × (o < 1000)
    × (1000 * 1000 ≤ (1000 + 100) * (1000 - o))
get_amount_out_safe_example =
    get_amount_out_safe 100 1000 1000 30 (omega arith) (omega arith) (omega arith) (omega arith)

get_amount_in_covers_example :
    (i x : ℕ) × (get_amount_in (pos 90) (pos 1000) (pos 1000) (pos 30) ≡ ok (pos i))
    × (get_amount_out (pos i) (pos 1000) (pos 1000) (pos 30) ≡ ok (pos x))
    × (90 ≤ x)
    × ((a y : ℕ)
        → get_amount_out (pos a) (pos 1000) (pos 1000) (pos 30) ≡ ok (pos y)
        → 90 ≤ y
        → i ≤ a + 1)
get_amount_in_covers_example =
    get_amount_in_covers 90 1000 1000 30 (omega arith) (omega arith) (omega arith) (omega arith)

mint_burn_no_profit_example :
    (l x y : ℕ) × (compute_mint (pos 10) (pos 25) (pos 1000) (pos 2000) (pos 1400) ≡ ok (pos l))
    × (compute_burn (pos l) (pos (1000 + 10)) (pos (2000 + 25)) (pos (1400 + l))
        ≡ ok (pos x, pos y))
    × (x ≤ 10)
    × (y ≤ 25)
mint_burn_no_profit_example =
    mint_burn_no_profit 10 25 1000 2000 1400 (omega arith) (omega arith) (omega arith)
