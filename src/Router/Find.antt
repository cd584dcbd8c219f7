-- ===== src/Router/Find.antt =====
-- `findOptimalPath` of src/modules/router.ts with its cache, a `Map` whose newest entries come first.
use coralswap_sdk.Common.{
  ℕ, ◌+◌, Bool, true, false, ◌&&◌, Option, none, some, List, [], ◌∷◌, Result, ok, err, ltb, ◌==◌,
  if◌then◌else◌, ℤ, eqb_ℤ,
}
use coralswap_sdk.Market.{Market, Client, Double, Address}
use coralswap_sdk.Swap.Quote.{TradeType, exact_in, exact_out}
use coralswap_sdk.Router.Best.{OptimalPath, get_slippage_bps, quote_path, best_of}
use coralswap_sdk.Router.Graph.{build_token_graph, find_all_paths, filter_zero_liquidity_paths}

-- The parts of `cacheKey`, which stand in it one after the other between colons.
pub record CacheKey : Type 0 where
  pub token_in : Address
  pub token_out : Address
  pub trade_type : TradeType
  pub amount : ℤ
  pub slippage_bps : ℤ

pub record CacheEntry : Type 0 where
  pub result : Option OptimalPath
  pub expires_at : ℕ

pub record Router : Type 0 where
  pub path_cache : List (CacheKey × CacheEntry)
  pub cache_ttl_ms : ℕ

abbrev pub same_trade : TradeType → TradeType → Bool
same_trade exact_in exact_in = true
same_trade exact_out exact_out = true
same_trade _ _ = false

abbrev pub same_key : CacheKey → CacheKey → Bool
same_key a b =
    a.token_in == b.token_in
    && a.token_out == b.token_out
    && same_trade a.trade_type b.trade_type
    && eqb_ℤ a.amount b.amount
    && eqb_ℤ a.slippage_bps b.slippage_bps

abbrev pub cached : List (CacheKey × CacheEntry) → CacheKey → Option CacheEntry
cached [] key = none
cached ((k, entry) ∷ entries) key = if same_key k key then some entry else cached entries key

abbrev pub fresh_entry : (now_ms : ℕ) → Option CacheEntry → Option CacheEntry
fresh_entry now_ms none = none
fresh_entry now_ms (some entry) = if ltb now_ms entry.expires_at then some entry else none

unfoldable pub clear_path_cache : Router → Router
clear_path_cache r = record r { path_cache = [] }

abbrev pub remember : Router → (now_ms : ℕ) → CacheKey → Option OptimalPath → Router
remember r now_ms key result = record r {
  path_cache =
      (key, record { result = result; expires_at = now_ms + r.cache_ttl_ms }) ∷ r.path_cache;
}

-- The best of the viable paths. Where there is no path, or none is viable, the loop over the paths does
-- nothing.
abbrev pub best_among :
    Double
    → Market
    → Client
    → CacheKey
    → (paths : Option (List (List Address))) → Option (Option OptimalPath)
best_among d m client key none = none
best_among d m client key (some paths) = some (
    best_of key.trade_type key.slippage_bps
      (quote_path d m client key.trade_type key.amount key.slippage_bps) none
      (filter_zero_liquidity_paths m paths))

abbrev pub search_best :
    (fuel : ℕ)
    → Double
    → Market
    → Client
    → (pairs : List Address) → CacheKey
    → Option (Option OptimalPath)
search_best fuel d m client pairs key =
    best_among d m client key
      (find_all_paths fuel key.token_in key.token_out (build_token_graph m pairs) 3)

abbrev pub found :
    Router
    → (now_ms : ℕ) → CacheKey
    → Option (Option OptimalPath)
    → Option (Router × Result (Option OptimalPath))
found r now_ms key none = none
found r now_ms key (some best) = some (remember r now_ms key best, ok best)

-- What a fresh entry of the cache holds, or else the search; `all_pairs` is what the factory returns.
abbrev pub answer :
    (fuel : ℕ)
    → Double
    → Market
    → Client
    → Result (List Address)
    → Router
    → (now_ms stored_ms : ℕ) → CacheKey
    → Option CacheEntry
    → Option (Router × Result (Option OptimalPath))
answer fuel d m client all_pairs r now_ms stored_ms key (some entry) = some (r, ok entry.result)
answer fuel d m client (err thrown) r now_ms stored_ms key none = some (r, err thrown)
answer fuel d m client (ok pairs) r now_ms stored_ms key none =
    found r stored_ms key (search_best fuel d m client pairs key)

abbrev pub key_of :
    (token_in token_out : Address) → TradeType → (amount slippage_bps : ℤ) → CacheKey
key_of token_in token_out trade_type amount slippage_bps = record {
  token_in = token_in;
  token_out = token_out;
  trade_type = trade_type;
  amount = amount;
  slippage_bps = slippage_bps;
}

abbrev pub with_slippage :
    (fuel : ℕ)
    → Double
    → Market
    → Client
    → (all_pairs : Result (List Address)) → Router
    → (now_ms stored_ms : ℕ) → (token_in token_out : Address) → (amount : ℤ) → TradeType
    → Result ℤ
    → Option (Router × Result (Option OptimalPath))
with_slippage fuel d m client all_pairs r now_ms stored_ms token_in token_out amount trade_type
      (err thrown) =
    some (r, err thrown)
with_slippage fuel d m client all_pairs r now_ms stored_ms token_in token_out amount trade_type
      (ok slippage_bps) =
    let key = key_of token_in token_out trade_type amount slippage_bps in
    answer fuel d m client all_pairs r now_ms stored_ms key
      (fresh_entry now_ms (cached r.path_cache key))

-- No result is fuel that ran out. The clock is read at the start and where an entry is stored.
unfoldable pub find_optimal_path :
    (fuel : ℕ)
    → Double
    → Market
    → Client
    → (all_pairs : Result (List Address)) → Router
    → (now_ms stored_ms : ℕ) → (token_in token_out : Address) → (amount : ℤ) → TradeType
    → (slippage : Option ℤ) → Option (Router × Result (Option OptimalPath))
find_optimal_path fuel d m client all_pairs r now_ms stored_ms token_in token_out amount trade_type
      slippage =
    with_slippage fuel d m client all_pairs r now_ms stored_ms token_in token_out amount trade_type
      (get_slippage_bps client slippage)
