-- ===== src/Router/Paths.antt =====
-- The paths that `findAllPaths` of src/modules/router.ts finds, and that its loop ends.
use mathlib.Core.Path.{subst}
use coralswap_sdk.Common.{
  ℕ, zero, suc, ◌+◌, ◌-◌, ◌*◌, ◌≤◌, ◌<◌, ◌≡◌, inl, inr, refl, arith, true, false, ◌&&◌, some, List,
  [], ◌∷◌, ◌++◌, length, length-append, All, All-append, Bool-cases, ltb, ◌==◌,
}
use coralswap_sdk.Market.{Address}
use coralswap_sdk.Router.Graph.{
  Graph, includes, Route, extend, successors, finished, search, find_all_paths,
}

-- `path` goes from `start` to `current` over edges of the graph, and no token is twice in it.
pub data Walk (graph : Graph) (start : Address) : List Address → Address → Type 0 where
  begin : Walk graph start (start ∷ []) start
  step :
      {path : List Address} {a : Address} (b : Address)
      → Walk graph start path a
      → includes (graph a) b ≡ true
      → includes path b ≡ false
      → Walk graph start (path ++ b ∷ []) b

eq_sound : (a b : ℕ) → a == b ≡ true → a ≡ b
eq_sound a b h = ground arith

eq_refl : (a : ℕ) → a == a ≡ true
eq_refl a = ground arith

-- Rounds enough for the routes that go on from one route, with `hops` hops left and at most `degree`
-- edges at a token.
abbrev pub rounds : (degree hops : ℕ) → ℕ
rounds degree zero = 1
rounds degree (suc hops) = 1 + degree * rounds degree hops

module _ (start end : Address) (graph : Graph) (max_hops : ℕ) where
  -- A path from `start` to `end` of at most `max_hops` hops, and at least one.
  abbrev pub IsPath : List Address → Type 0
  IsPath path = Walk graph start path end × (1 < length path) × (length path ≤ suc max_hops)

  abbrev IsRoute : Route → Type 0
  IsRoute r = Walk graph start r.path r.current × (length r.path ≤ suc max_hops)

  finished-IsPath : (r : Route) → IsRoute r → All IsPath (finished end graph max_hops r)
  finished-IsPath r (w, short) = elim (Bool-cases (r.current == end && ltb 1 (length r.path))) [
    | inl both ↦
        rw both
          ((subst (Walk graph start r.path) (arrived r both) w, long_enough r both, short), tt)
    | inr unfinished ↦ rw unfinished tt
  ]
    where
      arrived : (r : Route) → r.current == end && ltb 1 (length r.path) ≡ true → r.current ≡ end
      arrived r h = ground arith

      long_enough :
          (r : Route) → r.current == end && ltb 1 (length r.path) ≡ true → 1 < length r.path
      long_enough r h = ground arith

  extend-IsRoute :
      (path : List Address) (a : Address) (ns : List Address)
      → Walk graph start path a
      → length path ≤ max_hops
      → ((b : Address) → includes ns b ≡ true → includes (graph a) b ≡ true)
      → All IsRoute (extend path ns)
  extend-IsRoute path a [] w short edges = tt
  extend-IsRoute path a (n ∷ ns) w short edges =
      let others = extend-IsRoute path a ns w short (λ b h. edges b (later n b ns h)) in
      elim (Bool-cases (includes path n)) [
        | inl again ↦ rw again others
        | inr new ↦ rw new ((step n w (edges n (here n ns)) new, longer path n short), others)
      ]
    where
      later :
          (n b : Address) (ns : List Address) → includes ns b ≡ true → includes (n ∷ ns) b ≡ true
      later n b ns h = ground arith

      here : (n : Address) (ns : List Address) → includes (n ∷ ns) n ≡ true
      here n ns = ground arith

      longer :
          (path : List Address) (n : Address)
          → length path ≤ max_hops
          → length (path ++ n ∷ []) ≤ suc max_hops
      longer path n h = rw (length-append path (n ∷ [])) (omega arith)

  successors-IsRoute : (r : Route) → IsRoute r → All IsRoute (successors end graph max_hops r)
  successors-IsRoute r (w, short) = elim (Bool-cases (r.current == end)) [
    | inl arrived ↦ rw arrived tt
    | inr on ↦ rw on (elim (Bool-cases (ltb max_hops (length r.path))) [
      | inl long ↦ rw long tt
      | inr room ↦ rw room (
          extend-IsRoute r.path r.current (graph r.current) w (within (length r.path) room)
            (λ b h. h))
    ])
  ]
    where
      within : (n : ℕ) → ltb max_hops n ≡ false → n ≤ max_hops
      within n h = ground arith

module _ (start end : Address) (graph : Graph) (max_hops degree : ℕ) where
  -- The rounds for a route, and for all the routes of a queue.
  abbrev weight : Route → ℕ
  weight r = rounds degree (suc max_hops - length r.path)

  abbrev total : List Route → ℕ
  total [] = 0
  total (r ∷ queue) = weight r + total queue

  rounds_pos : (hops : ℕ) → 1 ≤ rounds degree hops
  rounds_pos zero = omega arith
  rounds_pos (suc hops) = omega arith

  total-append : (xs ys : List Route) → total (xs ++ ys) ≡ total xs + total ys
  total-append [] ys = omega arith
  total-append (r ∷ xs) ys = rw (total-append xs ys) (omega arith)

  total-extend :
      (path ns : List Address)
      → total (extend path ns) ≤ length ns * rounds degree (max_hops - length path)
  total-extend path [] = omega arith
  total-extend path (n ∷ ns) =
      let others = total-extend path ns in
      elim (Bool-cases (includes path n)) [
        | inl again ↦
            rw again (one_more (length ns) (rounds degree (max_hops - length path)) _ others)
        | inr new ↦
            rw new (rw (length-append path (n ∷ [])) (and_one (length ns) (length path) _ others))
      ]
    where
      same_hops : (l : ℕ) → suc max_hops - (l + 1) ≡ max_hops - l
      same_hops l = omega arith

      one_round : (n w t : ℕ) → t ≤ n * w → w + t ≤ suc n * w
      one_round n w t h = grind arith

      one_more : (n w t : ℕ) → t ≤ n * w → t ≤ suc n * w
      one_more n w t h = grind arith

      and_one :
          (n l t : ℕ)
          → t ≤ n * rounds degree (max_hops - l)
          → rounds degree (suc max_hops - (l + 1)) + t ≤ suc n * rounds degree (max_hops - l)
      and_one n l t h = rw (same_hops l) (one_round n (rounds degree (max_hops - l)) t h)

  total-successors :
      (r : Route)
      → length (graph r.current) ≤ degree
      → total (successors end graph max_hops r) < weight r
  total-successors r few = elim (Bool-cases (r.current == end)) [
    | inl arrived ↦ rw arrived (rounds_pos (suc max_hops - length r.path))
    | inr on ↦ rw on (elim (Bool-cases (ltb max_hops (length r.path))) [
      | inl long ↦ rw long (rounds_pos (suc max_hops - length r.path))
      | inr room ↦ rw room (
          spread (length r.path) (length (graph r.current)) _ room few
            (total-extend r.path (graph r.current)))
    ])
  ]
    where
      one_hop_less : (l : ℕ) → ltb max_hops l ≡ false → suc max_hops - l ≡ suc (max_hops - l)
      one_hop_less l h = ground arith

      at_most : (n w t : ℕ) → n ≤ degree → t ≤ n * w → t < 1 + degree * w
      at_most n w t few h = grind arith

      spread :
          (l n t : ℕ)
          → ltb max_hops l ≡ false
          → n ≤ degree
          → t ≤ n * rounds degree (max_hops - l)
          → t < rounds degree (suc max_hops - l)
      spread l n t room few h =
          rw (one_hop_less l room) (at_most n (rounds degree (max_hops - l)) t few h)

  search-IsPath :
      ((a : Address) → length (graph a) ≤ degree)
      → (fuel : ℕ) (queue : List Route) (paths : List (List Address))
      → All (IsRoute start end graph max_hops) queue
      → All (IsPath start end graph max_hops) paths
      → total queue ≤ fuel
      → (out : List (List Address)) × (search end graph max_hops fuel queue paths ≡ some out)
        × All (IsPath start end graph max_hops) out
  unfolding search
  search-IsPath few fuel [] paths routes found enough = (paths, refl, found)
  search-IsPath few zero (r ∷ queue) paths routes found enough =
      let some_round = rounds_pos (suc max_hops - length r.path) in
      absurd (none_left (weight r) (total queue) some_round enough)
    where
      none_left : (a b : ℕ) → 1 ≤ a → a + b ≤ 0 → ⊥
      none_left a b h k = omega arith
  search-IsPath few (suc fuel) (r ∷ queue) paths (route, routes) found enough =
      search-IsPath few fuel (queue ++ successors end graph max_hops r)
        (paths ++ finished end graph max_hops r)
        (All-append (IsRoute start end graph max_hops) queue _ routes
          (successors-IsRoute start end graph max_hops r route))
        (All-append (IsPath start end graph max_hops) paths _ found
          (finished-IsPath start end graph max_hops r route))
        (rw (total-append queue (successors end graph max_hops r)) (
          one_less (weight r) (total queue) (total (successors end graph max_hops r)) fuel enough
            (total-successors r (few r.current))))
    where
      one_less : (w q t n : ℕ) → w + q ≤ suc n → t < w → q + t ≤ n
      one_less w q t n h k = omega arith

  -- Where no token has more than `degree` neighbors in the graph, `rounds degree max_hops` rounds of the
  -- loop are enough: the search ends, and each path it returns goes from `start` to `end` over edges of
  -- the graph, takes one to `max_hops` hops and visits no token twice.
  pub find_all_paths-IsPath :
      (fuel : ℕ)
      → ((a : Address) → length (graph a) ≤ degree)
      → rounds degree max_hops ≤ fuel
      → (out : List (List Address)) × (find_all_paths fuel start end graph max_hops ≡ some out)
        × All (IsPath start end graph max_hops) out
  unfolding find_all_paths
  find_all_paths-IsPath fuel few enough =
      search-IsPath few fuel (record { current = start; path = start ∷ [] } ∷ []) []
        ((begin, omega arith), tt) tt (first max_hops enough)
    where
      same : (n : ℕ) → suc n - 1 ≡ n
      same n = omega arith

      first : (n : ℕ) → rounds degree n ≤ fuel → rounds degree (suc n - 1) + 0 ≤ fuel
      first n h = rw (same n) (omega arith)
