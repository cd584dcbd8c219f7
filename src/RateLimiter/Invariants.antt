-- ===== src/RateLimiter/Invariants.antt =====
-- What holds of a `RateLimiter` of src/utils/rate-limiter.ts at any time: the bucket, the queue, the order.
use mathlib.Core.Path.{subst}
use mathlib.Core.List.{append_assoc, map-append}
use coralswap_sdk.Common.{
  ℕ, ◌≤◌, ◌<◌, ◌≡◌, refl, sym, ◌∙◌, arith, List, [], ◌∷◌, ◌++◌, map, ok, plain, ◌==◌, guard-passed,
  ok-injective,
}
use coralswap_sdk.RateLimiter.{RateLimiter, Settled, new_limiter, get_remaining_capacity, refill}
use coralswap_sdk.RateLimiter.Moves.{
  Attended, who_of, Move, acquire-Move, try_acquire-Move, destroy-Move, fire-Move,
}
use coralswap_sdk.RateLimiter.Runs.{
  History, begin, after, ◌⟶◌, Reachable, made, then_step, asks, tries, looks, destroys, fires,
}

-- The bucket is never above its capacity, which is positive as the rate is; whoever waits will be served;
-- promises settle in the order in which they were asked for, each once.
pub record Sound (rate burst : ℕ) (h : History) : Type 0 where
  pub same_rate : h.limiter.max_requests_per_second ≡ rate
  pub same_burst : h.limiter.max_burst ≡ burst
  pub positive : (0 < rate) × (0 < burst)
  pub capped : h.limiter.tokens ≤ burst
  pub attended : Attended h.limiter.queue h.limiter.timer
  pub in_order : map who_of h.settled ++ h.limiter.queue ≡ h.asked

refill-capped :
    (l : RateLimiter) (now : ℕ) → l.tokens ≤ l.max_burst → (refill l now).tokens ≤ l.max_burst
unfolding refill
refill-capped l now h = ground arith

append-orders :
    (settled more : List Settled) (q q' extra asked : List ℕ)
    → map who_of settled ++ q ≡ asked
    → map who_of more ++ q' ≡ q ++ extra
    → map who_of (settled ++ more) ++ q' ≡ asked ++ extra
append-orders settled more q q' extra asked h k = rw (
  map-append who_of settled more,
  append_assoc,
  k,
  sym (append_assoc (map who_of settled) q extra),
  h,
)

-- A move from a bucket that was refilled, or not, keeps a history sound.
Move-Sound :
    (rate burst : ℕ) (h : History) (r l : RateLimiter) (more : List Settled) (extra : List ℕ)
    (now n : ℕ)
    → r.max_requests_per_second ≡ h.limiter.max_requests_per_second
    → r.max_burst ≡ h.limiter.max_burst
    → r.queue ≡ h.limiter.queue
    → r.timer ≡ h.limiter.timer
    → r.tokens ≤ h.limiter.max_burst
    → Move r l more extra n
    → Sound rate burst h
    → Sound rate burst (after h now l more extra n)
Move-Sound rate burst h r l more extra now n hr hb hq ht hc m s = record {
  same_rate = m.keeps_rate ∙ hr ∙ s.same_rate;
  same_burst = m.keeps_burst ∙ hb ∙ s.same_burst;
  positive = s.positive;
  capped = omega (arith, m.pays, s.same_burst);
  attended = m.attends (rw (hq, ht) s.attended);
  in_order =
      append-orders h.settled more h.limiter.queue l.queue extra h.asked s.in_order
        (rw hq at m.orders);
}

refill-tokens :
    (rate burst : ℕ) (h : History) (now : ℕ)
    → Sound rate burst h
    → (refill h.limiter now).tokens ≤ h.limiter.max_burst
refill-tokens rate burst h now s =
    refill-capped h.limiter now (omega (arith, s.capped, s.same_burst))

step-Sound : (rate burst : ℕ) {h h' : History} → h ⟶ h' → Sound rate burst h → Sound rate burst h'
unfolding get_remaining_capacity refill
step-Sound rate burst {h} (asks who now t) s =
    Move-Sound rate burst h (refill h.limiter now) _ _ (who ∷ []) now _ refl refl refl refl
      (refill-tokens rate burst h now s) (acquire-Move h.limiter who now) s
step-Sound rate burst {h} (tries now t) s =
    Move-Sound rate burst h (refill h.limiter now) _ [] [] now _ refl refl refl refl
      (refill-tokens rate burst h now s) (try_acquire-Move h.limiter now) s
step-Sound rate burst {h} (looks now t) s = record {
  same_rate = s.same_rate;
  same_burst = s.same_burst;
  positive = s.positive;
  capped = omega (arith, refill-tokens rate burst h now s, s.same_burst);
  attended = s.attended;
  in_order = s.in_order;
}
step-Sound rate burst {h} (destroys now t) s =
    Move-Sound rate burst h h.limiter _ _ [] now _ refl refl refl refl
      (omega (arith, s.capped, s.same_burst)) (destroy-Move h.limiter) s
step-Sound rate burst {h} (fires at now due late t) s =
    Move-Sound rate burst h (refill h.limiter now) _ _ [] now _ refl refl refl refl
      (refill-tokens rate burst h now s) (fire-Move h.limiter now) s

begin-Sound :
    (rate burst start : ℕ) (l : RateLimiter)
    → new_limiter rate burst start ≡ ok l
    → Sound rate burst (begin l start)
unfolding new_limiter
begin-Sound rate burst start l e =
    let (some_rate, e1) = guard-passed (rate == 0) plain _ e in
    let (some_burst, e2) = guard-passed (burst == 0) plain _ e1 in
    subst (λ v. Sound rate burst (begin v start)) (ok-injective e2)
      (record {
        same_rate = refl;
        same_burst = refl;
        positive = (ground arith, ground arith);
        capped = omega arith;
        attended = tt;
        in_order = refl;
      })

-- At any time in the life of a limiter its rate and its burst are those it was made with and positive, the
-- bucket holds no more than the burst, a queue that is not empty has a timer pending, and the promises
-- of `acquire` that settled, followed by those that wait, are those that were asked for, in order.
pub Reachable-Sound :
    (rate burst start : ℕ) {h : History} → Reachable rate burst start h → Sound rate burst h
Reachable-Sound rate burst start (made {l} e) = begin-Sound rate burst start l e
Reachable-Sound rate burst start (then_step before step) =
    step-Sound rate burst step (Reachable-Sound rate burst start before)
