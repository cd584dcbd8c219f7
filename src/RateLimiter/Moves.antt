-- ===== src/RateLimiter/Moves.antt =====
-- What one operation of a `RateLimiter` of src/utils/rate-limiter.ts does to the bucket and the queue.
use mathlib.Core.Path.{subst}
use mathlib.Core.List.{append-nil}
use coralswap_sdk.Common.{
  ℕ, zero, suc, ◌+◌, ◌≡◌, refl, sym, ap, ◌∙◌, arith, ltb, leb, if◌then◌else◌, Bool, true, false,
  some, none, Option, List, [], ◌∷◌, ◌++◌, map, not, ◌&&◌,
}
use coralswap_sdk.RateLimiter.{
  RateLimiter, Settled, resolved, rejected, acquire, try_acquire, destroy, fire, flush, refill,
  serve, schedule_next, arm, is_empty, grant_or_wait, take_if, rearm,
}
use coralswap_sdk.RateLimiter.Runs.{taken}

-- A queue that is not empty has a timer that will serve it.
abbrev pub Attended : List ℕ → Option ℕ → Type 0
Attended [] timer = Unit
Attended (w ∷ queue) timer = (at : ℕ) × (timer ≡ some at)

abbrev pub who_of : Settled → ℕ
who_of (resolved w) = w
who_of (rejected w) = w

serve-spent :
    (tokens : ℕ) (queue : List ℕ) → (serve tokens queue).0 + taken (serve tokens queue).1 ≡ tokens
serve-spent tokens [] = omega arith
serve-spent zero (w ∷ queue) = refl
serve-spent (suc tokens) (w ∷ queue) = omega (arith, serve-spent tokens queue)

serve-in_order :
    (tokens : ℕ) (queue : List ℕ)
    → map who_of (serve tokens queue).1 ++ (serve tokens queue).2 ≡ queue
serve-in_order tokens [] = refl
serve-in_order zero (w ∷ queue) = refl
serve-in_order (suc tokens) (w ∷ queue) = ap (λ q. w ∷ q) (serve-in_order tokens queue)

-- Whoever is still in the queue found the bucket empty.
serve-done :
    (tokens : ℕ) (queue : List ℕ)
    → (not (is_empty (serve tokens queue).2) && ltb (serve tokens queue).0 1 ≡ false)
    → (serve tokens queue).2 ≡ []
serve-done tokens [] h = refl
serve-done zero (w ∷ queue) h = cc
serve-done (suc tokens) (w ∷ queue) h = serve-done tokens queue h

Attended-armed :
    (queue : List ℕ) (timer : Option ℕ) (rate now : ℕ) → Attended queue (arm timer rate now)
Attended-armed [] timer rate now = tt
Attended-armed (w ∷ queue) none rate now = (_, refl)
Attended-armed (w ∷ queue) (some at) rate now = (at, refl)

-- From the base `r`, which is the limiter with its bucket refilled, to `l`: tokens that leave the bucket
-- were given out, and the queue was settled from its head and grew at its end.
pub record Move (r l : RateLimiter) (more : List Settled) (extra : List ℕ) (spent : ℕ)
    : Type 0 where
  pub keeps_rate : l.max_requests_per_second ≡ r.max_requests_per_second
  pub keeps_burst : l.max_burst ≡ r.max_burst
  pub keeps_clock : l.last_refill_time ≡ r.last_refill_time
  pub pays : l.tokens + spent ≡ r.tokens
  pub attends : Attended r.queue r.timer → Attended l.queue l.timer
  pub orders : map who_of more ++ l.queue ≡ r.queue ++ extra

alone :
    (c : Bool) (queue : List ℕ) (who : ℕ)
    → (c && is_empty queue) ≡ true
    → who ∷ queue ≡ queue ++ (who ∷ [])
alone true [] who h = refl
alone true (w ∷ queue) who h = cc
alone false queue who h = cc

grant_or_wait-Move :
    (free : Bool) (r : RateLimiter) (who now : ℕ)
    → (leb 1 r.tokens && is_empty r.queue) ≡ free
    → let (l, more) = grant_or_wait free r who now in Move r l more (who ∷ []) (taken more)
unfolding schedule_next
grant_or_wait-Move true r who now h = record {
  keeps_rate = refl;
  keeps_burst = refl;
  keeps_clock = refl;
  pays = ground arith;
  attends = λ a. a;
  orders = alone (leb 1 r.tokens) r.queue who h;
}
grant_or_wait-Move false r who now h = record {
  keeps_rate = refl;
  keeps_burst = refl;
  keeps_clock = refl;
  pays = omega arith;
  attends = λ a. Attended-armed _ _ _ _;
  orders = refl;
}

pub acquire-Move :
    (l : RateLimiter) (who now : ℕ)
    → let (l', more) = acquire l who now in Move (refill l now) l' more (who ∷ []) (taken more)
unfolding acquire
acquire-Move l who now = grant_or_wait-Move _ (refill l now) who now refl

take_if-Move :
    (free : Bool) (r : RateLimiter)
    → leb 1 r.tokens ≡ free
    → let (l, granted) = take_if free r in Move r l [] [] (if granted then 1 else 0)
take_if-Move true r h = record {
  keeps_rate = refl;
  keeps_burst = refl;
  keeps_clock = refl;
  pays = ground arith;
  attends = λ a. a;
  orders = sym (append-nil r.queue);
}
take_if-Move false r h = record {
  keeps_rate = refl;
  keeps_burst = refl;
  keeps_clock = refl;
  pays = omega arith;
  attends = λ a. a;
  orders = sym (append-nil r.queue);
}

pub try_acquire-Move :
    (l : RateLimiter) (now : ℕ)
    → let (l', granted) = try_acquire l now in
      Move (refill l now) l' [] [] (if granted then 1 else 0)
unfolding try_acquire
try_acquire-Move l now = take_if-Move _ (refill l now) refl

rejected-none : (queue : List ℕ) → taken (map rejected queue) ≡ 0
rejected-none [] = refl
rejected-none (w ∷ queue) = rejected-none queue

rejected-in_order : (queue : List ℕ) → map who_of (map rejected queue) ≡ queue
rejected-in_order [] = refl
rejected-in_order (w ∷ queue) = ap (λ q. w ∷ q) (rejected-in_order queue)

pub destroy-Move : (l : RateLimiter) → let (l', more) = destroy l in Move l l' more [] (taken more)
unfolding destroy
destroy-Move l = record {
  keeps_rate = refl;
  keeps_burst = refl;
  keeps_clock = refl;
  pays = omega (arith, rejected-none l.queue);
  attends = λ a. tt;
  orders = ap (λ q. q ++ []) (rejected-in_order l.queue);
}

-- A timer is armed again unless the queue is empty or tokens are left, and then no one waits.
rearm-Move :
    (again : Bool) (r f : RateLimiter) (more : List Settled) (now : ℕ)
    → (again ≡ false → f.queue ≡ [])
    → f.max_requests_per_second ≡ r.max_requests_per_second
    → f.max_burst ≡ r.max_burst
    → f.last_refill_time ≡ r.last_refill_time
    → f.tokens + taken more ≡ r.tokens
    → map who_of more ++ f.queue ≡ r.queue
    → Move r (rearm again f now) more [] (taken more)
unfolding schedule_next
rearm-Move true r f more now done hr hb hc hp ho = record {
  keeps_rate = hr;
  keeps_burst = hb;
  keeps_clock = hc;
  pays = hp;
  attends = λ a. Attended-armed _ _ _ _;
  orders = ho ∙ sym (append-nil r.queue);
}
rearm-Move false r f more now done hr hb hc hp ho = record {
  keeps_rate = hr;
  keeps_burst = hb;
  keeps_clock = hc;
  pays = hp;
  attends = λ a. subst (λ q. Attended q f.timer) (sym (done refl)) tt;
  orders = ho ∙ sym (append-nil r.queue);
}

pub fire-Move :
    (l : RateLimiter) (now : ℕ)
    → let (l', more) = fire l now in Move (refill l now) l' more [] (taken more)
unfolding fire flush refill
fire-Move l now =
    rearm-Move _ (refill l now) _ _ now (serve-done _ l.queue) refl refl refl
      (serve-spent _ l.queue) (serve-in_order _ l.queue)
