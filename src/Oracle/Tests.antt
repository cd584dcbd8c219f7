-- ===== src/Oracle/Tests.antt =====
-- A pair that is observed at several times.
use coralswap_sdk.Common.{
  ℕ, ◌*◌, ◌≤◌, ◌≡◌, refl, arith, true, pos, none, some, [], ◌∷◌, length, replicate, ok,
}
use coralswap_sdk.Market.{Market}
use coralswap_sdk.Oracle.{
  TwapObservation, Chain, ObservationCache, push, observe, compute_twap, get_twap,
  compute_deviation_bps,
}
use coralswap_sdk.Oracle.Pruned.{Covers, Recent}
use coralswap_sdk.Oracle.Window.{Full, get_twap-Full, compute_twap-Between}

abbrev market : Market
market = record {
  get_pair_address = λ a b. none;
  get_reserves = λ pair. ok (pos 1_000, pos 4_000);
  get_dynamic_fee = λ pair. ok (pos 30);
  get_tokens = λ pair. ok (1, 2);
  total_supply = λ pair. ok (pos 0);
  balance = λ pair owner. ok (pos 0);
}

-- The second price is 3 and the first is 5, since the start of the ledger.
abbrev at : ℕ → TwapObservation
at time = record {
  price0_cumulative_last = pos (5 * time);
  price1_cumulative_last = pos (3 * time);
  block_timestamp_last = time;
}

abbrev chain : ℕ → Chain
chain time = record {
  market = market;
  get_cumulative_prices = λ pair. ok (at time);
  is_valid_address = λ a. true;
}

abbrev cache : ObservationCache
cache pair = at 1000 ∷ at 1100 ∷ at 1350 ∷ []

get_twap-Full_example :
    Full (chain 1500) 7 (at 1500) (1, 2) (get_twap (chain 1500) none cache 7).1
    × Covers 1500 ((get_twap (chain 1500) none cache 7).0 7)
    × Recent 1500 ((get_twap (chain 1500) none cache 7).0 7)
    × (length ((get_twap (chain 1500) none cache 7).0 7) ≤ 500)
get_twap-Full_example =
    get_twap-Full (chain 1500) 7 (at 1500) (1, 2) cache refl refl refl (omega arith) (omega arith)

kept : (get_twap (chain 1500) none cache 7).0 7 ≡ at 1100 ∷ at 1350 ∷ at 1500 ∷ []
unfolding get_twap observe push
kept = refl

computed : compute_twap (at 1000) (at 1300) none ≡ ok (pos 5, pos 3, 300)
unfolding compute_twap
computed = refl

compute_twap-Between_example : (price : ℕ) × (pos 5 ≡ pos price) × (4 ≤ price) × (price ≤ 6)
compute_twap-Between_example =
    compute_twap-Between (at 1000) (at 1300) none (pos 5, pos 3, 300) 4 6 5000 1500 computed refl
      refl (omega arith) (omega arith)

-- The observation at 1000 is cut off at 1299, and at 1301 there is no window of 300 seconds, though the
-- pair has been observed for longer.
abbrev busy : ObservationCache
busy pair = at 1000 ∷ replicate 499 (at 1200)

cut_short : (get_twap (chain 1301) none (get_twap (chain 1299) none busy 7).0 7).1 ≡ ok none
unfolding get_twap observe push
cut_short = refl

deviates : compute_deviation_bps (pos 200) (pos 190) ≡ some (pos 500)
unfolding compute_deviation_bps
deviates = refl

unavailable : compute_deviation_bps (pos 0) (pos 190) ≡ none
unfolding compute_deviation_bps
unavailable = refl
