-- ===== src/RateLimiter/Burst.antt =====
-- How many tokens a `RateLimiter` of src/utils/rate-limiter.ts gives out, and when.
use Prim.Native.Nat.{min}
use coralswap_sdk.Common.{
  ℕ, ◌+◌, ◌-◌, ◌*◌, ◌/◌, ◌≤◌, ◌<◌, ◌≡◌, ap, ◌∙◌, arith, if◌then◌else◌, Bool, true, false, List, [],
  ◌∷◌, ok, plain, ◌==◌, guard-passed, ok-injective,
}
use mathlib.Core.Path.{subst}
use coralswap_sdk.Common.Division.{times_mono, div_floor, le-div, div-le}
use coralswap_sdk.RateLimiter.{
  RateLimiter, Settled, new_limiter, get_remaining_capacity, refill, tokens_to_add,
}
use coralswap_sdk.RateLimiter.Moves.{Move, acquire-Move, try_acquire-Move, destroy-Move, fire-Move}
use coralswap_sdk.RateLimiter.Runs.{
  History, begin, after, ◌⟶◌, Reachable, made, then_step, asks, tries, looks, destroys, fires,
}
use coralswap_sdk.RateLimiter.Invariants.{Sound, Reachable-Sound}

-- A quotient of a multiple is the factor.
cancel : (n k rate : ℕ) → 0 < rate → rate * k ≡ 1000 → n * 1000 / rate ≡ n * k
cancel n k rate p h =
    let e = ap (λ (x : ℕ). n * x) h in
    omega (
      arith,
      le-div (n * k) (n * 1000) rate p (omega (arith, e)),
      div-le (n * k) (n * 1000) rate (omega (arith, e)) p,
    )

cancel_le : (a b rate : ℕ) → 0 < rate → a * rate ≤ b * rate → a ≤ b
cancel_le a b rate p h = grind arith

earned_in_time :
    (elapsed rate k : ℕ) → 0 < rate → rate * k ≡ 1000 → elapsed * rate / 1000 * k ≤ elapsed
earned_in_time elapsed rate k p h =
    let e = ap (λ (x : ℕ). elapsed * rate / 1000 * x) h in
    cancel_le _ _ rate p (omega (arith, e, div_floor (elapsed * rate) 1000 (omega arith)))

-- The two fields of a refilled bucket, `earned` tokens having come in.
paid :
    (gains : Bool) (earned tokens burst last advance k now : ℕ)
    → advance ≡ earned * k
    → last + earned * k ≤ now
    → let tokens' = if gains then min burst (tokens + earned) else tokens in
      let last' = if gains then last + advance else last in
      (tokens' * k + last ≤ tokens * k + last') × (last' ≤ now)
paid false earned tokens burst last advance k now e t = (omega arith, omega arith)
paid true earned tokens burst last advance k now e t = (
  omega (arith, times_mono (min burst (tokens + earned)) (tokens + earned) k (ground arith), e),
  omega (arith, e),
)

-- Where a token takes a whole number `k` of milliseconds: what the bucket gained was paid by the clock.
refill-paid :
    (l : RateLimiter) (k now : ℕ)
    → 0 < l.max_requests_per_second
    → l.max_requests_per_second * k ≡ 1000
    → l.last_refill_time ≤ now
    → let r = refill l now in
      (r.tokens * k + l.last_refill_time ≤ l.tokens * k + r.last_refill_time)
      × (r.last_refill_time ≤ now)
unfolding refill
refill-paid l k now p h past =
    paid _ (tokens_to_add l now) l.tokens l.max_burst l.last_refill_time _ k now
      (cancel (tokens_to_add l now) k l.max_requests_per_second p h)
      (omega (arith, earned_in_time (now - l.last_refill_time) l.max_requests_per_second k p h))

-- The tokens in the bucket and those given out are within the burst and the time that has passed.
record Paid (k burst start : ℕ) (h : History) : Type 0 where
  clock : h.limiter.last_refill_time ≤ h.now
  budget : (h.spent + h.limiter.tokens) * k + start ≤ burst * k + h.limiter.last_refill_time

Move-Paid :
    (k burst start : ℕ) (h : History) (r l : RateLimiter) (more : List Settled) (extra : List ℕ)
    (now n : ℕ)
    → h.now ≤ now
    → r.tokens * k + h.limiter.last_refill_time ≤ h.limiter.tokens * k + r.last_refill_time
    → r.last_refill_time ≤ now
    → Move r l more extra n
    → Paid k burst start h
    → Paid k burst start (after h now l more extra n)
Move-Paid k burst start h r l more extra now n t gained past m s =
    let share = ap (λ (x : ℕ). x * k) m.pays in
    record {
      clock = omega (arith, m.keeps_clock);
      budget = omega (arith, m.keeps_clock, share, s.budget);
    }

gained_by :
    (k rate burst start : ℕ) (h : History) (now : ℕ)
    → rate * k ≡ 1000
    → h.now ≤ now
    → Sound rate burst h
    → Paid k burst start h
    → let r = refill h.limiter now in
      (r.tokens * k + h.limiter.last_refill_time ≤ h.limiter.tokens * k + r.last_refill_time)
      × (r.last_refill_time ≤ now)
gained_by k rate burst start h now e t s b =
    refill-paid h.limiter k now (omega (arith, s.same_rate, s.positive))
      (ap (λ (x : ℕ). x * k) s.same_rate ∙ e) (omega (arith, b.clock))

step-Paid :
    (k rate burst start : ℕ) {h h' : History}
    → rate * k ≡ 1000
    → h ⟶ h'
    → Sound rate burst h
    → Paid k burst start h
    → Paid k burst start h'
unfolding get_remaining_capacity
step-Paid k rate burst start {h} e (asks who now t) s b =
    let (gained, past) = gained_by k rate burst start h now e t s b in
    Move-Paid k burst start h (refill h.limiter now) _ _ (who ∷ []) now _ t gained past
      (acquire-Move h.limiter who now) b
step-Paid k rate burst start {h} e (tries now t) s b =
    let (gained, past) = gained_by k rate burst start h now e t s b in
    Move-Paid k burst start h (refill h.limiter now) _ [] [] now _ t gained past
      (try_acquire-Move h.limiter now) b
step-Paid k rate burst start {h} e (looks now t) s b =
    let (gained, past) = gained_by k rate burst start h now e t s b in
    record { clock = past; budget = omega (arith, gained, b.budget) }
step-Paid k rate burst start {h} e (destroys now t) s b =
    Move-Paid k burst start h h.limiter _ _ [] now _ t (omega arith) (omega (arith, b.clock))
      (destroy-Move h.limiter) b
step-Paid k rate burst start {h} e (fires at now due late t) s b =
    let (gained, past) = gained_by k rate burst start h now e t s b in
    Move-Paid k burst start h (refill h.limiter now) _ _ [] now _ t gained past
      (fire-Move h.limiter now) b

begin-Paid :
    (k rate burst start : ℕ) (l : RateLimiter)
    → new_limiter rate burst start ≡ ok l
    → Paid k burst start (begin l start)
unfolding new_limiter
begin-Paid k rate burst start l e =
    let (some_rate, e1) = guard-passed (rate == 0) plain _ e in
    let (some_burst, e2) = guard-passed (burst == 0) plain _ e1 in
    subst (λ v. Paid k burst start (begin v start)) (ok-injective e2)
      (record { clock = omega arith; budget = omega arith })

Reachable-Paid :
    (k rate burst start : ℕ) {h : History}
    → rate * k ≡ 1000
    → Reachable rate burst start h
    → Paid k burst start h
Reachable-Paid k rate burst start e (made {l} m) = begin-Paid k rate burst start l m
Reachable-Paid k rate burst start e (then_step before step) =
    step-Paid k rate burst start e step (Reachable-Sound rate burst start before)
      (Reachable-Paid k rate burst start e before)

-- Where the rate divides 1000, so that a token takes a whole number `k` of milliseconds, the tokens given
-- out by any calls and timers since the limiter was made are at most its burst and one for each `k`
-- milliseconds that have passed, and time has not gone back.
pub Reachable-spent :
    (k rate burst start : ℕ) {h : History}
    → rate * k ≡ 1000
    → Reachable rate burst start h
    → (start ≤ h.now) × (h.spent * k ≤ burst * k + (h.now - start))
Reachable-spent k rate burst start {h} e reached =
    let b = Reachable-Paid k rate burst start e reached in
    (started reached, omega (arith, b.budget, b.clock, started reached))
  where
    started : {g : History} → Reachable rate burst start g → start ≤ g.now
    started (made m) = omega arith
    started (then_step before (asks who now t)) = omega (arith, started before)
    started (then_step before (tries now t)) = omega (arith, started before)
    started (then_step before (looks now t)) = omega (arith, started before)
    started (then_step before (destroys now t)) = omega (arith, started before)
    started (then_step before (fires at now due late t)) = omega (arith, started before)
