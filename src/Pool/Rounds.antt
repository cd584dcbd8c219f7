-- ===== src/Pool/Rounds.antt =====
-- The life of a `ConnectionPool` of src/utils/connection-pool.ts: its index stays within the endpoints, and
-- failures of one endpoint take it out of rotation and no other.
use mathlib.Core.Path.{subst}
use native.Mathlib.Nat.{mod-lt}
use coralswap_sdk.Common.{
  ℕ, ◌≤◌, ◌<◌, ◌≡◌, ◌⊎◌, inl, inr, refl, ap, sym, arith, not, ◌&&◌, if◌then◌else◌, leb, ◌==◌,
  Option, none, some, List, [], ◌∷◌, length, length-append, ok, Bool-cases, ok-injective,
}
use coralswap_sdk.Pool.{
  EndpointState, ConnectionPool, ConnectionPoolOptions, new_pool, add_endpoint, added,
  remove_endpoint, mark_failed, report_success, report_failure, mark_healthy, change_found,
  get_endpoint,
}
use coralswap_sdk.Pool.Pick.{Picked, get_endpoint-Picked}

infix 45 ◌⟶◌
-- One call of a method that changes the pool.
pub data ◌⟶◌ : ConnectionPool → ConnectionPool → Type 0 where
  adds : {p : ConnectionPool} (url : ℕ) → p ⟶ add_endpoint p url
  removes : {p : ConnectionPool} (url : ℕ) → p ⟶ remove_endpoint p url
  marks_failed : {p : ConnectionPool} (url now : ℕ) → p ⟶ mark_failed p url now
  marks_healthy : {p : ConnectionPool} (url : ℕ) → p ⟶ mark_healthy p url
  succeeds : {p : ConnectionPool} (url : ℕ) → p ⟶ report_success p url
  fails : {p : ConnectionPool} (url now : ℕ) → p ⟶ report_failure p url now
  gets : {p p' : ConnectionPool} (url now : ℕ) → get_endpoint p now ≡ ok (p', url) → p ⟶ p'

pub data Reachable : ConnectionPool → Type 0 where
  made :
      {p : ConnectionPool} (urls : Option (List ℕ)) (options : ConnectionPoolOptions)
      → new_pool urls options ≡ ok p
      → Reachable p
  then_call : {p p' : ConnectionPool} → Reachable p → p ⟶ p' → Reachable p'

abbrev pub InRange : ConnectionPool → Type 0
InRange p = (p.rr_index ≡ 0) ⊎ (p.rr_index < length p.endpoints)

length-change_found :
    (f : EndpointState → EndpointState) (eps : List EndpointState) (url : ℕ)
    → length (change_found f eps url) ≡ length eps
length-change_found f [] url = refl
length-change_found f (ep ∷ eps) url = elim (Bool-cases (ep.url == url)) [
  | inl e ↦ rw e
  | inr e ↦ rw (e, length-change_found f eps url)
]

InRange-longer :
    (i : ℕ) (eps eps' : List EndpointState)
    → length eps ≤ length eps'
    → (i ≡ 0) ⊎ (i < length eps)
    → (i ≡ 0) ⊎ (i < length eps')
InRange-longer i eps eps' h (inl e) = inl e
InRange-longer i eps eps' h (inr l) = inr (omega arith)

length-added :
    (o : Option EndpointState) (eps : List EndpointState) (url : ℕ)
    → length eps ≤ length (added o eps url)
length-added none eps url = omega (arith, length-append eps _)
length-added (some ep) eps url = omega arith

InRange-removed :
    (i before after : ℕ)
    → (i ≡ 0) ⊎ (i < before)
    → let i' = if not (after == before) && leb after i then 0 else i in (i' ≡ 0) ⊎ (i' < after)
InRange-removed i before after h = ground arith

InRange-le : (p : ConnectionPool) → InRange p → p.rr_index ≤ length p.endpoints
InRange-le p h = omega (arith, h)

step-InRange : {p p' : ConnectionPool} → p ⟶ p' → InRange p → InRange p'
unfolding add_endpoint remove_endpoint mark_failed mark_healthy report_success report_failure
step-InRange {p} (adds url) h =
    InRange-longer p.rr_index p.endpoints _ (length-added _ p.endpoints url) h
step-InRange {p} (removes url) h = InRange-removed p.rr_index (length p.endpoints) _ h
step-InRange {p} (marks_failed url now) h =
    InRange-longer p.rr_index p.endpoints _ (omega (arith, length-change_found _ p.endpoints url)) h
step-InRange {p} (marks_healthy url) h =
    InRange-longer p.rr_index p.endpoints _ (omega (arith, length-change_found _ p.endpoints url)) h
step-InRange {p} (succeeds url) h =
    InRange-longer p.rr_index p.endpoints _ (omega (arith, length-change_found _ p.endpoints url)) h
step-InRange {p} (fails url now) h =
    InRange-longer p.rr_index p.endpoints _ (omega (arith, length-change_found _ p.endpoints url)) h
step-InRange {p} {p'} (gets url now e) h =
    let (i, few, skips, (ep, has, same_url, same)) =
      subst (Picked p now) e (get_endpoint-Picked p now (InRange-le p h)) in
    subst InRange (sym same) (inr (mod-lt _ (omega arith)))

made-InRange :
    (urls : Option (List ℕ)) (options : ConnectionPoolOptions) (p : ConnectionPool)
    → new_pool urls options ≡ ok p
    → p.rr_index ≡ 0
unfolding new_pool
made-InRange none options p e = sym (ap (λ (q : ConnectionPool). q.rr_index) (ok-injective e))
made-InRange (some []) options p e = cc
made-InRange (some (url ∷ urls)) options p e =
    sym (ap (λ (q : ConnectionPool). q.rr_index) (ok-injective e))

Reachable-InRange : {p : ConnectionPool} → Reachable p → InRange p
Reachable-InRange (made {p} urls options e) = inl (made-InRange urls options p e)
Reachable-InRange (then_call before step) = step-InRange step (Reachable-InRange before)

-- At any time in the life of a pool, whatever endpoints were added, removed or marked, `getEndpoint`
-- returns the URL of the first healthy endpoint from its index on, around the end, and moves the index
-- past it; it throws only `PoolExhaustedError`, and only where every endpoint is unhealthy.
pub Reachable-Picked :
    {p : ConnectionPool} (now : ℕ) → Reachable p → Picked p now (get_endpoint p now)
Reachable-Picked {p} now reached =
    get_endpoint-Picked p now (InRange-le p (Reachable-InRange reached))
