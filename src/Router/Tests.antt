-- ===== src/Router/Tests.antt =====
-- The routes between three tokens with a pair for every two.
use coralswap_sdk.Common.{
  ◌*◌, ◌+◌, ◌≤◌, ◌≡◌, refl, arith, ltb, if◌then◌else◌, ◌==◌, true, pos, none, some, Option, List,
  [], ◌∷◌, length, All, Result, ok, ℤ, ◌-ℤ◌, ◌*ℤ◌, quot,
}
use coralswap_sdk.Market.{Market, Client, Double, Address}
use coralswap_sdk.Swap.Quote.{exact_in}
use coralswap_sdk.Router.Graph.{
  Graph, connect, search, build_token_graph, find_all_paths, filter_zero_liquidity_paths,
  has_liquidity,
}
use coralswap_sdk.Router.Best.{OptimalPath}
use coralswap_sdk.Router.Find.{
  CacheKey, key_of, search_best, Router, clear_path_cache, find_optimal_path,
}
use coralswap_sdk.Router.Optimal.{Comes, Beats}
use coralswap_sdk.Router.Paths.{IsPath, find_all_paths-IsPath}
use coralswap_sdk.Router.Chosen.{quoted, Viable, search_best-Beats}

abbrev market : Market
market = record {
  get_pair_address = λ a b. if ltb a b then some (10 * a + b) else some (10 * b + a);
  get_reserves = λ pair. ok (pos 1_000_000, pos 2_000_000);
  get_dynamic_fee = λ pair. ok (pos 30);
  get_tokens =
      λ pair. if pair == 12 then ok (1, 2) else (if pair == 23 then ok (2, 3) else ok (1, 3));
  total_supply = λ pair. ok (pos 1_400_000);
  balance = λ pair owner. ok (pos 0);
}

abbrev paths : List (List Address)
paths = (1 ∷ 3 ∷ []) ∷ (1 ∷ 2 ∷ 3 ∷ []) ∷ []

finds : find_all_paths 10 1 3 (build_token_graph market (12 ∷ 23 ∷ 13 ∷ [])) 3 ≡ some paths
unfolding find_all_paths build_token_graph search connect
finds = refl

viable : filter_zero_liquidity_paths market paths ≡ paths
unfolding filter_zero_liquidity_paths has_liquidity
viable = refl

abbrev triangle : Graph
triangle token = 2 ∷ 3 ∷ []

two_neighbors : (a : Address) → length (triangle a) ≤ 2
two_neighbors a = omega arith

find_all_paths-IsPath_example :
    (out : List (List Address)) × (find_all_paths 15 1 3 triangle 3 ≡ some out)
    × All (IsPath 1 3 triangle 3) out
find_all_paths-IsPath_example =
    find_all_paths-IsPath 1 3 triangle 3 2 15 two_neighbors (omega arith)

-- An arithmetic of whole numbers.
abbrev whole : Double
whole = record {
  Number = ℤ;
  from_ℤ = λ z. z;
  minus = λ a b. a -ℤ b;
  times = λ a b. a *ℤ b;
  over = quot;
  round = λ z. z;
}

abbrev client : Client
client = record {
  default_slippage_bps = none;
  get_deadline = 1200;
  public_key = 9;
  is_valid_address = λ a. true;
}

abbrev pairs : List Address
pairs = 12 ∷ 23 ∷ 13 ∷ []

abbrev key : CacheKey
key = key_of 1 3 exact_in (pos 5000) (pos 50)

search_best-Beats_example :
    (paths : List (List Address)) × (best : Option OptimalPath) × (find_all_paths 300 1 3
        (build_token_graph market pairs)
        3
      ≡ some paths)
    × (search_best 300 whole market client pairs key ≡ some best)
    × Comes exact_in
        (pos 50)
        (quoted whole market client pairs key)
        (Viable whole market client pairs key)
        best
    × All
        (Beats exact_in (pos 50) (quoted whole market client pairs key) best)
        (filter_zero_liquidity_paths market paths)
search_best-Beats_example = search_best-Beats whole market client pairs key 300 (omega arith)

abbrev router : Router
router = record { path_cache = []; cache_ttl_ms = 30000 }

abbrev first_call : Option (Router × Result (Option OptimalPath))
first_call =
    find_optimal_path 300 whole market client (ok pairs) (clear_path_cache router) 900 1000 1 3
      (pos 5000) exact_in none

abbrev best : OptimalPath
best = record {
  path = 1 ∷ 2 ∷ 3 ∷ [];
  bound = record {
    quote = record {
      token_in = 1;
      token_out = 3;
      amount_in = pos 5000;
      amount_out = pos 19586;
      amount_out_min = pos 19489;
      price_impact_bps = pos 0;
      fee_bps = pos 60;
      fee_amount = pos 44;
      path = 1 ∷ 2 ∷ 3 ∷ [];
      deadline = 1200;
    };
    max_amount_in = none;
  };
}

abbrev remembered : Router
remembered = record {
  path_cache = (key, record { result = some best; expires_at = 31000 }) ∷ [];
  cache_ttl_ms = 30000;
}

-- The pairs are gone, and the answer is still that of the first call.
abbrev bare : Market
bare = record market { get_pair_address = λ a b. none }
