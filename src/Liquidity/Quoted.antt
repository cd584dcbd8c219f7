-- ===== src/Liquidity/Quoted.antt =====
-- What a quote for adding liquidity of src/modules/liquidity.ts is worth.
use coralswap_sdk.Common.{ℕ, ◌+◌, ◌*◌, ◌/◌, ◌≤◌, ◌<◌, ◌≡◌, refl, arith, ok, pos}
use coralswap_sdk.Common.Division.{div_floor, div-lt, times_mono}
use coralswap_sdk.PairMath.{compute_burn}
use coralswap_sdk.PairMath.Shares.{compute_burn-eq_shares, redeem-le}
use coralswap_sdk.Liquidity.{AddLiquidityQuote, pool_quote, price_of}

cancel_lt : (a b r : ℕ) → a * r < b * r → a < b
cancel_lt a b r h = grind arith

times_lt : (a b r : ℕ) → 0 < r → a < b → a * r < b * r
times_lt a b r p h = grind arith

-- The shares for token A are worth no more of token B than its optimal amount and one.
share_of_b : (a ra rb t : ℕ) → 0 < ra → 0 < t → a * t / ra * rb < (a * rb / ra + 1) * t
share_of_b a ra rb t pa pt =
    let (low, high) = div_floor (a * t) ra pa in
    let (low_b, high_b) = div_floor (a * rb) ra pa in
    cancel_lt _ _ ra (
      omega (
        arith,
        times_mono (a * t / ra * ra) (a * t) rb low,
        times_lt (a * rb) ((a * rb / ra + 1) * ra) t pt high_b,
      ))

pool_quote-eq :
    (a ra rb t : ℕ)
    → 0 < ra
    → 0 < t
    → pool_quote (pos a) (pos ra) (pos rb) (pos t)
      ≡ ok (record {
        amount_a = pos a;
        amount_b = pos (a * rb / ra);
        estimated_lp_tokens = pos (a * t / ra);
        share_of_pool_bps = pos (a * t / ra * 10000 / (t + a * t / ra));
        price_a_per_b = price_of (pos ra) (pos rb);
        price_b_per_a = price_of (pos rb) (pos ra);
      })
unfolding pool_quote
pool_quote-eq a ra rb t pa pt = ground arith

-- In a pool with a reserve of token A and a supply, the quote asks for at most the amount of token B that
-- the reserves give for the amount of token A; and the shares that it estimates, burned after the deposit
-- and as if all of them had been minted, return of each token at most what the quote asks for.
pub pool_quote_no_profit :
    (a ra rb t : ℕ)
    → 0 < ra
    → 0 < t
    → (q : AddLiquidityQuote) × (b : ℕ) × (l : ℕ) × (x : ℕ) × (y : ℕ) × (pool_quote
          (pos a)
          (pos ra)
          (pos rb)
          (pos t)
        ≡ ok q)
      × (q.amount_b ≡ pos b)
      × (q.estimated_lp_tokens ≡ pos l)
      × (b * ra ≤ a * rb)
      × (compute_burn (pos l) (pos (ra + a)) (pos (rb + b)) (pos (t + l)) ≡ ok (pos x, pos y))
      × (x ≤ a)
      × (y ≤ b)
pool_quote_no_profit a ra rb t pa pt =
    let l = a * t / ra in
    let b = a * rb / ra in
    let (few, much) = div_floor (a * t) ra pa in
    let (low, high) = div_floor (a * rb) ra pa in
    let y = l * (rb + b) / (t + l) in
    let below : y < b + 1 =
      div-lt (b + 1) (l * (rb + b)) (t + l) (omega arith)
        (omega (arith, share_of_b a ra rb t pa pt)) in
    (
      _,
      b,
      l,
      l * (ra + a) / (t + l),
      y,
      pool_quote-eq a ra rb t pa pt,
      refl,
      refl,
      low,
      compute_burn-eq_shares l (ra + a) (rb + b) (t + l) (omega arith),
      redeem-le l a ra t pt few,
      omega (arith, below),
    )
