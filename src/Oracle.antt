-- ===== src/Oracle.antt =====
-- OracleModule of src/modules/oracle.ts: the observations of the cumulative prices of a pair and the
-- time-weighted prices between them. A timestamp is the time of a ledger in seconds. A method is a
-- function to the next cache and to what it returns or throws.
pub mod Window
pub mod Pruned
mod Tests
use coralswap_sdk.Common.{
  ℕ, zero, suc, ◌+◌, ◌-◌, ◌^◌, Bool, true, false, not, ◌&&◌, ◌||◌, Option, none, some, List, [],
  ◌∷◌, ◌++◌, length, last_of, drop, or_else, Result, ok, err, validation, insufficient_liquidity,
  throw_if, ◌>>=◌, ◌>>◌, ltb, leb, ◌==◌, if◌then◌else◌, ℤ, pos, ◌-ℤ◌, ◌*ℤ◌, quot, is_zero, ltb_ℤ,
}
use coralswap_sdk.Market.{Market, Address}

abbrev pub min_twap_window_seconds : ℕ
min_twap_window_seconds = 300

abbrev pub max_observations : ℕ
max_observations = 500

pub record TwapObservation : Type 0 where
  pub price0_cumulative_last : ℤ
  pub price1_cumulative_last : ℤ
  pub block_timestamp_last : ℕ

pub record TwapResult : Type 0 where
  pub pair_address : Address
  pub token0 : Address
  pub token1 : Address
  pub price0_twap : ℤ
  pub price1_twap : ℤ
  pub time_window : ℕ
  pub start_observation : TwapObservation
  pub end_observation : TwapObservation

-- What a call reads: the pairs, `pair.getCumulativePrices()` and the check of an address.
pub record Chain : Type 0 where
  pub market : Market
  pub get_cumulative_prices : Address → Result TwapObservation
  pub is_valid_address : Address → Bool

-- `observationCache`. A pair without an entry has no observations.
abbrev pub ObservationCache : Type 0
ObservationCache = Address → List TwapObservation

abbrev pub set : ObservationCache → Address → List TwapObservation → ObservationCache
set cache pair observations a = if a == pair then observations else cache a

-- The first pass: the oldest is dropped while the next one is old enough.
abbrev pub drop_covered : (newest_ts : ℕ) → List TwapObservation → List TwapObservation
drop_covered newest_ts [] = []
drop_covered newest_ts (oldest ∷ []) = oldest ∷ []
drop_covered newest_ts (oldest ∷ next ∷ others) =
    let shifted = drop_covered newest_ts (next ∷ others) in
    if leb (next.block_timestamp_last + min_twap_window_seconds) newest_ts
    then shifted
    else oldest ∷ next ∷ others

-- The second pass: the oldest are dropped above the cap.
abbrev pub cap : List TwapObservation → List TwapObservation
cap observations =
    if ltb max_observations (length observations)
    then drop (length observations - max_observations) observations
    else observations

unfoldable pub push : List TwapObservation → TwapObservation → List TwapObservation
push existing observation =
    cap (drop_covered observation.block_timestamp_last (existing ++ observation ∷ []))

module _ (chain : Chain) where
  abbrev pub observed :
      ObservationCache
      → Address
      → Result TwapObservation
      → ObservationCache × Result TwapObservation
  observed cache pair (err thrown) = (cache, err thrown)
  observed cache pair (ok observation) =
      (set cache pair (push (cache pair) observation), ok observation)

  unfoldable pub observe : ObservationCache → Address → ObservationCache × Result TwapObservation
  observe cache pair =
      observed cache pair (
        throw_if (not (chain.is_valid_address pair)) validation >> chain.get_cumulative_prices pair)

-- `computeTWAP`, which returns the two prices and the time window.
unfoldable pub compute_twap :
    (start end : TwapObservation) → (enforce_min_window : Option Bool) → Result (ℤ × ℤ × ℕ)
compute_twap start end enforce_min_window =
    let elapsed = end.block_timestamp_last - start.block_timestamp_last in
    throw_if (leb end.block_timestamp_last start.block_timestamp_last) validation
    >> throw_if (or_else enforce_min_window true && ltb elapsed min_twap_window_seconds) validation
    >> ok (
      quot (end.price0_cumulative_last -ℤ start.price0_cumulative_last) (pos elapsed),
      quot (end.price1_cumulative_last -ℤ start.price1_cumulative_last) (pos elapsed),
      elapsed,
    )

abbrev pub twap_result :
    (pair : Address)
    → (start end : TwapObservation) → (tokens : Address × Address) → ℤ × ℤ × ℕ
    → Option TwapResult
twap_result pair start end (token0, token1) (price0, price1, elapsed) = some (record {
  pair_address = pair;
  token0 = token0;
  token1 = token1;
  price0_twap = price0;
  price1_twap = price1;
  time_window = elapsed;
  start_observation = start;
  end_observation = end;
})

module _ (chain : Chain) where
  -- From the first observation to the last; nothing is returned while the window is too short.
  abbrev pub twap_between :
      (enforce : Bool) → Address → (start end : TwapObservation) → Result (Option TwapResult)
  twap_between enforce pair start end =
      if leb end.block_timestamp_last start.block_timestamp_last
        || enforce
          && ltb (end.block_timestamp_last - start.block_timestamp_last) min_twap_window_seconds
      then ok none
      else (chain.market.get_tokens pair >>= λ tokens.
          compute_twap start end (some false) >>= λ prices.
          ok (twap_result pair start end tokens prices))

  abbrev pub twap_of :
      (enforce : Bool) → Address → List TwapObservation → Result (Option TwapResult)
  twap_of enforce pair [] = ok none
  twap_of enforce pair (start ∷ []) = ok none
  twap_of enforce pair (start ∷ next ∷ others) =
      twap_between enforce pair start (last_of next others)

  abbrev pub after_observe :
      (enforce : Bool)
      → Address
      → ObservationCache × Result TwapObservation
      → ObservationCache × Result (Option TwapResult)
  after_observe enforce pair (cache, err thrown) = (cache, err thrown)
  after_observe enforce pair (cache, ok observation) = (cache, twap_of enforce pair (cache pair))

  unfoldable pub get_twap :
      (enforce_min_window : Option Bool)
      → ObservationCache
      → Address
      → ObservationCache × Result (Option TwapResult)
  get_twap enforce_min_window cache pair =
      after_observe (or_else enforce_min_window true) pair (observe chain cache pair)

  -- `PRECISION.PRICE_SCALE` is 10 ^ 14.
  abbrev pub spot_prices : (pair : Address) → ℤ × ℤ → Result (ℤ × ℤ)
  spot_prices pair (reserve0, reserve1) =
      throw_if (is_zero reserve0 || is_zero reserve1) insufficient_liquidity
      >> ok (quot (reserve0 *ℤ pos (10 ^ 14)) reserve1, quot (reserve1 *ℤ pos (10 ^ 14)) reserve0)

  unfoldable pub get_spot_price : Address → Result (ℤ × ℤ)
  get_spot_price pair =
      throw_if (not (chain.is_valid_address pair)) validation
      >> chain.market.get_reserves pair
      >>= λ reserves. spot_prices pair reserves

unfoldable pub compute_deviation_bps : (reference_price current_price : ℤ) → Option ℤ
compute_deviation_bps reference_price current_price =
    let diff =
      if ltb_ℤ reference_price current_price
      then current_price -ℤ reference_price
      else reference_price -ℤ current_price in
    if is_zero reference_price then none else some (quot (diff *ℤ pos 10_000) reference_price)

pub record PriceDeviation : Type 0 where
  pub price0_deviation_bps : Option ℤ
  pub price1_deviation_bps : Option ℤ
  pub twap_price0 : ℤ
  pub twap_price1 : ℤ
  pub spot_price0 : ℤ
  pub spot_price1 : ℤ

abbrev pub deviation_of : TwapResult → ℤ × ℤ → PriceDeviation
deviation_of twap (spot0, spot1) = record {
  price0_deviation_bps = compute_deviation_bps twap.price0_twap spot0;
  price1_deviation_bps = compute_deviation_bps twap.price1_twap spot1;
  twap_price0 = twap.price0_twap;
  twap_price1 = twap.price1_twap;
  spot_price0 = spot0;
  spot_price1 = spot1;
}

module _ (chain : Chain) where
  abbrev pub against_spot : (pair : Address) → Option TwapResult → Result (Option PriceDeviation)
  against_spot pair none = ok none
  against_spot pair (some twap) =
      get_spot_price chain pair >>= λ spot. ok (some (deviation_of twap spot))

  abbrev pub after_twap :
      (pair : Address)
      → ObservationCache × Result (Option TwapResult)
      → ObservationCache × Result (Option PriceDeviation)
  after_twap pair (cache, answer) = (cache, (answer >>= λ twap. against_spot pair twap))

  unfoldable pub get_price_deviation :
      ObservationCache → Address → ObservationCache × Result (Option PriceDeviation)
  get_price_deviation cache pair = elim (chain.is_valid_address pair) [
    | true ↦ after_twap pair (get_twap chain none cache pair)
    | false ↦ (cache, err validation)
  ]

  unfoldable pub get_observation_series : ObservationCache → Address → Result (List TwapObservation)
  get_observation_series cache pair =
      throw_if (not (chain.is_valid_address pair)) validation >> ok (cache pair)

  unfoldable pub get_observation_count : ObservationCache → Address → Result ℕ
  get_observation_count cache pair =
      throw_if (not (chain.is_valid_address pair)) validation >> ok (length (cache pair))

-- An empty address clears all, as none does.
unfoldable pub clear_cache : ObservationCache → (pair : Option Address) → ObservationCache
clear_cache cache none a = []
clear_cache cache (some pair) a = set cache pair [] a
