-- ===== src/Router/Chosen.antt =====
-- What the loops of `findOptimalPath` of src/modules/router.ts choose together.
use coralswap_sdk.Common.{
  ℕ, ◌+◌, ◌*◌, ◌≤◌, ◌≡◌, inl, inr, ap, arith, Bool, true, Option, none, some, List, [], ◌∷◌, length,
  length-append, keep, All, Bool-cases, Result, ok, err, ◌==◌,
}
use coralswap_sdk.Market.{Market, Client, Double, Address}
use coralswap_sdk.Router.Graph.{
  Graph, includes, push_new, connect, graph_from, add_pair, build_token_graph, find_all_paths,
  has_liquidity, filter_zero_liquidity_paths,
}
use coralswap_sdk.Swap.Quote.{SwapQuote}
use coralswap_sdk.Router.Best.{OptimalPath, quote_path, best_of}
use coralswap_sdk.Router.Find.{CacheKey, search_best, best_among}
use coralswap_sdk.Router.Optimal.{Comes, Beats, best_of-Beats}
use coralswap_sdk.Router.Paths.{IsPath, rounds, find_all_paths-IsPath}

push_new_longer : (ts : List Address) (t : Address) → length (push_new ts t) ≤ length ts + 1
push_new_longer ts t = elim (Bool-cases (includes ts t)) [
  | inl there ↦ rw there (omega arith)
  | inr new ↦ rw new (rw (length-append ts (t ∷ [])) (omega arith))
]

connect_longer :
    (graph : Graph) (from to token : Address)
    → length (connect graph from to token) ≤ length (graph token) + 1
unfolding connect
connect_longer graph from to token = elim (Bool-cases (token == from)) [
  | inl here ↦ rw here (push_new_longer (graph token) to)
  | inr other ↦ rw other (omega arith)
]

-- A pair adds at most two neighbors to a token.
add_pair_longer :
    (graph : Graph) (tokens : Result (Address × Address)) (token : Address)
    → length (add_pair graph tokens token) ≤ length (graph token) + 2
add_pair_longer graph (err thrown) token = omega arith
add_pair_longer graph (ok (token0, token1)) token =
    let once = connect_longer graph token0 token1 token in
    let twice = connect_longer (connect graph token0 token1) token1 token0 token in omega arith

graph_from_longer :
    (m : Market) (graph : Graph) (pairs : List Address) (token : Address)
    → length (graph_from m graph pairs token) ≤ length (graph token) + 2 * length pairs
graph_from_longer m graph [] token = omega arith
graph_from_longer m graph (pair ∷ pairs) token =
    let one = add_pair_longer graph (m.get_tokens pair) token in
    let others = graph_from_longer m (add_pair graph (m.get_tokens pair)) pairs token in omega arith

length-build_token_graph :
    (m : Market) (pairs : List Address) (token : Address)
    → length (build_token_graph m pairs token) ≤ 2 * length pairs
unfolding build_token_graph
length-build_token_graph m pairs token =
    let all = graph_from_longer m (λ token. []) pairs token in omega arith

All-keep :
    (P : List Address → Type 0) (test : List Address → Bool) (paths : List (List Address))
    → All P paths
    → All (λ path. P path × (test path ≡ true)) (keep test paths)
All-keep P test [] all = tt
All-keep P test (path ∷ paths) (p, all) = elim (Bool-cases (test path)) [
  | inl kept ↦ rw kept ((p, kept), All-keep P test paths all)
  | inr dropped ↦ rw dropped (All-keep P test paths all)
]

module _ (d : Double) (m : Market) (client : Client) (pairs : List Address) (key : CacheKey) where
  -- The quote of a path for the amount that is asked for.
  abbrev pub quoted : List Address → Result SwapQuote
  quoted path = quote_path d m client key.trade_type key.amount key.slippage_bps path

  -- A path between the tokens of the request over the pairs of the factory, at most three hops long, whose
  -- every hop has a pair with reserves.
  abbrev pub Viable : List Address → Type 0
  Viable path =
      IsPath key.token_in key.token_out (build_token_graph m pairs) 3 path
      × (has_liquidity m path ≡ true)

  -- On enough fuel for the number of pairs the search for the best path ends. The path it returns goes from
  -- the first token to the second over pairs whose tokens were read, in at most three hops, visits no
  -- token twice and has reserves at every hop; it carries its quote with the slippage bound. No path that
  -- was found and has reserves at every hop is quoted at a higher output, for a given input, or at a lower
  -- input, for a given output; where nothing is returned, every one of these paths failed to be quoted.
  pub search_best-Beats :
      (fuel : ℕ)
      → rounds (2 * length pairs) 3 ≤ fuel
      → (paths : List (List Address)) × (best : Option OptimalPath) × (find_all_paths fuel
            key.token_in key.token_out
            (build_token_graph m pairs)
            3
          ≡ some paths)
        × (search_best fuel d m client pairs key ≡ some best)
        × Comes key.trade_type key.slippage_bps quoted Viable best
        × All
            (Beats key.trade_type key.slippage_bps quoted best)
            (filter_zero_liquidity_paths m paths)
  unfolding filter_zero_liquidity_paths
  search_best-Beats fuel enough =
      let (paths, finds, all) =
        find_all_paths-IsPath key.token_in key.token_out (build_token_graph m pairs) 3
          (2 * length pairs) fuel (length-build_token_graph m pairs) enough in
      let (comes, beats) =
        best_of-Beats key.trade_type key.slippage_bps quoted Viable (keep (has_liquidity m) paths) (
          All-keep (IsPath key.token_in key.token_out (build_token_graph m pairs) 3)
            (has_liquidity m) paths all) in
      (
        paths,
        best_of key.trade_type key.slippage_bps quoted none (keep (has_liquidity m) paths),
        finds,
        ap (best_among d m client key) finds,
        comes,
        beats,
      )
