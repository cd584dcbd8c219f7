-- ===== src/Router/Graph.antt =====
-- `buildTokenGraph`, `findAllPaths` and `filterZeroLiquidityPaths` of src/modules/router.ts.
use coralswap_sdk.Common.{
  ℕ, zero, suc, Bool, true, false, not, ◌&&◌, ◌||◌, Option, none, some, List, [], ◌∷◌, ◌++◌, length,
  keep, Result, ok, err, ltb, ◌==◌, if◌then◌else◌, is_zero, ℤ,
}
use coralswap_sdk.Market.{Market, Address}

-- `graph[token] || []`
abbrev pub Graph : Type 0
Graph = Address → List Address

abbrev pub includes : List Address → Address → Bool
includes [] token = false
includes (t ∷ tokens) token = t == token || includes tokens token

abbrev pub push_new : List Address → Address → List Address
push_new tokens token = if includes tokens token then tokens else tokens ++ token ∷ []

unfoldable pub connect : Graph → (from to : Address) → Graph
connect graph from to token = if token == from then push_new (graph token) to else graph token

-- A pair whose tokens cannot be read is left out.
abbrev pub add_pair : Graph → Result (Address × Address) → Graph
add_pair graph (err thrown) = graph
add_pair graph (ok (token0, token1)) = connect (connect graph token0 token1) token1 token0

abbrev pub graph_from : Market → Graph → List Address → Graph
graph_from m graph [] = graph
graph_from m graph (pair ∷ pairs) = graph_from m (add_pair graph (m.get_tokens pair)) pairs

unfoldable pub build_token_graph : Market → List Address → Graph
build_token_graph m pairs = graph_from m (λ token. []) pairs

-- A path that is being searched, from its first token to the last, `current`.
pub record Route : Type 0 where
  pub current : Address
  pub path : List Address

abbrev pub extend : List Address → List Address → List Route
extend path [] = []
extend path (neighbor ∷ neighbors) =
    let others = extend path neighbors in
    if not (includes path neighbor)
    then record { current = neighbor; path = path ++ neighbor ∷ [] } ∷ others
    else others

module _ (end : Address) (graph : Graph) (max_hops : ℕ) where
  -- What a route adds to the queue, and what it adds to the paths.
  abbrev pub successors : Route → List Route
  successors r =
      if r.current == end
      then []
      else (if ltb max_hops (length r.path) then [] else extend r.path (graph r.current))

  abbrev pub finished : Route → List (List Address)
  finished r = if r.current == end && ltb 1 (length r.path) then r.path ∷ [] else []

  -- The loop over the queue, for at most `fuel` routes.
  unfoldable pub search :
      (fuel : ℕ) → List Route → (paths : List (List Address)) → Option (List (List Address))
  search fuel [] paths = some paths
  search zero (r ∷ queue) paths = none
  search (suc fuel) (r ∷ queue) paths = search fuel (queue ++ successors r) (paths ++ finished r)

unfoldable pub find_all_paths :
    (fuel : ℕ) → (start end : Address) → Graph → (max_hops : ℕ) → Option (List (List Address))
find_all_paths fuel start end graph max_hops =
    search end graph max_hops fuel (record { current = start; path = start ∷ [] } ∷ []) []

abbrev pub has_reserves : Result (ℤ × ℤ) → Bool
has_reserves (err thrown) = false
has_reserves (ok (reserve0, reserve1)) = not (is_zero reserve0 || is_zero reserve1)

abbrev pub hop_has_liquidity : Market → Option Address → Bool
hop_has_liquidity m none = false
hop_has_liquidity m (some pair) = has_reserves (m.get_reserves pair)

unfoldable pub has_liquidity : Market → List Address → Bool
has_liquidity m [] = true
has_liquidity m (a ∷ []) = true
has_liquidity m (a ∷ b ∷ path) =
    hop_has_liquidity m (m.get_pair_address a b) && has_liquidity m (b ∷ path)

unfoldable pub filter_zero_liquidity_paths : Market → List (List Address) → List (List Address)
filter_zero_liquidity_paths m paths = keep (has_liquidity m) paths
