-- ===== src/Pool/Pick.antt =====
-- Which endpoint `getEndpoint` of src/utils/connection-pool.ts returns.
use mathlib.Core.Path.{subst}
use native.Mathlib.Decide.{dec_le}
use native.Mathlib.Nat.{mod-lt, mod-eq_of_lt, add-mod_right}
use coralswap_sdk.Common.{
  ℕ, zero, suc, ◌+◌, ◌-◌, ◌%◌, ◌≤◌, ◌<◌, ◌≡◌, refl, ap, sym, ◌∙◌, arith, Bool, true, false,
  if◌then◌else◌, some, List, [], ◌∷◌, length, get_elem?, Result, ok, err, pool_exhausted,
}
use coralswap_sdk.Common.Attempts.{Every, at_start, at_next, from_zero, Every-nil, Every-cons}
use coralswap_sdk.Pool.{EndpointState, ConnectionPool, is_healthy, visit, place, pass, get_endpoint}

get_elem?-some :
    {A : Type 0} (xs : List A) (i : ℕ) → i < length xs → (x : A) × (get_elem? xs i ≡ some x)
get_elem?-some [] i h = elim h [ ]
get_elem?-some (x ∷ xs) zero h = (x, refl)
get_elem?-some (x ∷ xs) (suc i) h = get_elem?-some xs i (omega arith)

module _ (p : ConnectionPool) (now : ℕ) where
  -- The endpoint at index `j`, and whether it is healthy.
  abbrev pub Has : Bool → ℕ → EndpointState → Type 0
  Has healthy j ep = (get_elem? p.endpoints j ≡ some ep) × (is_healthy p now ep ≡ healthy)

  abbrev pub Ill : ℕ → Type 0
  Ill j = (ep : EndpointState) × Has false j ep

  abbrev pub Skipped : ℕ → Type 0
  Skipped i = Ill (place p now i)

  -- The first healthy endpoint of the pass is returned, and the index moves past it.
  abbrev pub Chosen : ℕ → ConnectionPool → ℕ → Type 0
  Chosen i p' url =
      (ep : EndpointState) × Has true (place p now i) ep
      × (url ≡ ep.url)
      × (p' ≡ record p { rr_index = (place p now i + 1) % length p.endpoints })

  abbrev Passed : (left i : ℕ) → Result (ConnectionPool × ℕ) → Type 0
  Passed left i (ok (p', url)) = (n : ℕ) × (n < left) × Every Skipped i n × Chosen (i + n) p' url
  Passed left i (err thrown) = (thrown ≡ pool_exhausted) × Every Skipped i left

  later-Passed :
      (left i : ℕ) (r : Result (ConnectionPool × ℕ))
      → Skipped i
      → Passed left (suc i) r
      → Passed (suc left) i r
  later-Passed left i (ok (p', url)) s (n, few, skips, chosen) = (
    suc n,
    omega arith,
    Every-cons Skipped i n s skips,
    at_next (λ k. Chosen k p' url) i n chosen,
  )
  later-Passed left i (err thrown) s (e, skips) = (e, Every-cons Skipped i left s skips)

  abbrev answer :
      EndpointState → ℕ → Bool → Result (ConnectionPool × ℕ) → Result (ConnectionPool × ℕ)
  answer ep idx healthy rest =
      if healthy then ok (record p { rr_index = (idx + 1) % length p.endpoints }, ep.url) else rest

  visit-Passed :
      (left i : ℕ) (ep : EndpointState) (healthy : Bool) (rest : Result (ConnectionPool × ℕ))
      → Has healthy (place p now i) ep
      → Passed left (suc i) rest
      → Passed (suc left) i (visit p now (some ep) (place p now i) rest)
  visit-Passed left i ep true rest h x =
      subst (λ b. Passed (suc left) i (answer ep (place p now i) b rest)) (sym h.1)
        (
          0,
          omega arith,
          Every-nil Skipped i,
          at_start
              (λ k.
                Chosen k (record p { rr_index = (place p now i + 1) % length p.endpoints }) ep.url)
              i (ep, h, refl, refl),
        )
  visit-Passed left i ep false rest h x =
      subst (λ b. Passed (suc left) i (answer ep (place p now i) b rest)) (sym h.1)
        (later-Passed left i rest (ep, h) x)

  pass-Passed : (left i : ℕ) → left ≤ length p.endpoints → Passed left i (pass p now left i)
  unfolding pass
  pass-Passed zero i h = (refl, Every-nil Skipped i)
  pass-Passed (suc left) i h =
      let (ep, there) =
        get_elem?-some p.endpoints (place p now i) (mod-lt (p.rr_index + i) (omega arith)) in
      subst (λ o. Passed (suc left) i (visit p now o (place p now i) (pass p now left (suc i))))
        (sym there)
        (visit-Passed left i ep _ (pass p now left (suc i)) (there, refl)
          (pass-Passed left (suc i) (omega arith)))

  -- Every index is visited.
  place-of :
      (j : ℕ)
      → p.rr_index ≤ length p.endpoints
      → j < length p.endpoints
      → (i : ℕ) × (i < length p.endpoints) × (place p now i ≡ j)
  place-of j r h = elim (dec_le p.rr_index j) [
    | yes after ↦
        let same : p.rr_index + (j - p.rr_index) ≡ j = omega arith in
        (j - p.rr_index, omega arith, ap (λ (k : ℕ). k % length p.endpoints) same ∙ mod-eq_of_lt h)
    | no before ↦
        let wrapped : p.rr_index + (j + length p.endpoints - p.rr_index) ≡ j + length p.endpoints =
          omega arith in
        (
          j + length p.endpoints - p.rr_index,
          omega arith,
          ap (λ (k : ℕ). k % length p.endpoints) wrapped
              ∙ add-mod_right j (length p.endpoints)
              ∙ mod-eq_of_lt h,
        )
  ]

  abbrev pub Picked : Result (ConnectionPool × ℕ) → Type 0
  Picked (ok (p', url)) =
      (i : ℕ) × (i < length p.endpoints) × ((k : ℕ) → k < i → Skipped k) × Chosen i p' url
  Picked (err thrown) = (thrown ≡ pool_exhausted) × ((j : ℕ) → j < length p.endpoints → Ill j)

  Passed-Picked :
      (r : Result (ConnectionPool × ℕ))
      → p.rr_index ≤ length p.endpoints
      → Passed (length p.endpoints) 0 r
      → Picked r
  Passed-Picked (ok (p', url)) h (n, few, skips, chosen) = (
    n,
    few,
    λ k below. from_zero Skipped k (skips k below),
    from_zero (λ k. Chosen k p' url) n chosen,
  )
  Passed-Picked (err thrown) h (e, skips) = (
    e,
    λ j below.
        let (i, early, same) = place-of j h below in
        subst Ill same (from_zero Skipped i (skips i early)),
  )

  -- Where the index is not past the end, `getEndpoint` returns the URL of the first healthy endpoint from
  -- the index on, around the end, changes nothing but the index, which is then the one after it; it
  -- throws only `PoolExhaustedError`, and only where every endpoint of the pool is unhealthy.
  pub get_endpoint-Picked : p.rr_index ≤ length p.endpoints → Picked (get_endpoint p now)
  unfolding get_endpoint
  get_endpoint-Picked h =
      Passed-Picked (pass p now (length p.endpoints) 0) h
        (pass-Passed (length p.endpoints) 0 (omega arith))
