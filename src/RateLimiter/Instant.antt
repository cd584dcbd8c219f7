-- ===== src/RateLimiter/Instant.antt =====
-- `RateLimiter` of src/utils/rate-limiter.ts in one instant: rates above one token a millisecond, and
-- what the timer serves.
use Prim.Native.Nat.{min}
use coralswap_sdk.Common.{
  ℕ, zero, suc, ◌+◌, ◌-◌, ◌*◌, ◌/◌, ◌≤◌, ◌<◌, ◌≡◌, refl, sym, ap, ◌∙◌, arith, ltb, leb, le→leb,
  if◌then◌else◌, Bool, true, false, List, ◌∷◌,
}
use mathlib.Core.Path.{subst}
use coralswap_sdk.Common.Division.{times_mono, div_floor, le-div, div-lt}
use coralswap_sdk.RateLimiter.{
  RateLimiter, Settled, resolved, try_acquire, fire, flush, refill, serve, delay_of, take_if, spend,
}

-- `n` calls of `tryAcquire` at the same instant: the tokens they took.
abbrev pub try_times : ℕ → RateLimiter → ℕ → ℕ
try_times zero l now = 0
try_times (suc n) l now =
    let (l', granted) = try_acquire l now in (if granted then 1 else 0) + try_times n l' now

one_earned : (last rate : ℕ) → 1000 < rate → rate < 2000 → (suc last - last) * rate / 1000 ≡ 1
one_earned last rate fast slow =
    let one : suc last - last ≡ 1 = omega arith in
    let e = ap (λ (x : ℕ). x * rate / 1000) one in
    omega (
      arith,
      e,
      le-div 1 (1 * rate) 1000 (omega arith) (omega arith),
      div-lt 2 (1 * rate) 1000 (omega arith) (omega arith),
    )

no_advance : (earned rate : ℕ) → 1000 < rate → earned ≡ 1 → earned * 1000 / rate ≡ 0
no_advance earned rate fast e =
    omega (arith, div-lt 1 (earned * 1000) rate (omega arith) (omega arith))

-- A bucket that earns a token has one.
has_one :
    (earned burst tokens : ℕ)
    → 0 < earned
    → 0 < burst
    → 0 < (if ltb 0 earned then min burst (tokens + earned) else tokens)
has_one earned burst tokens e h = ground arith

stays :
    (gains : Bool) (last advance : ℕ)
    → advance ≡ 0
    → (if gains then last + advance else last) ≡ last
stays true last advance e = omega arith
stays false last advance e = refl

-- One millisecond after its refill time, such a limiter has a token, and its refill time stays.
refill-again :
    (l : RateLimiter)
    → 1000 < l.max_requests_per_second
    → l.max_requests_per_second < 2000
    → 0 < l.max_burst
    → let r = refill l (suc l.last_refill_time) in
      (leb 1 r.tokens ≡ true) × (r.last_refill_time ≡ l.last_refill_time)
unfolding refill
refill-again l fast slow room =
    let earned = one_earned l.last_refill_time l.max_requests_per_second fast slow in
    let still = no_advance _ l.max_requests_per_second fast earned in
    (
      le→leb 1 _ (has_one _ l.max_burst l.tokens (omega (arith, earned)) room),
      stays _ l.last_refill_time _ still,
    )

try_once :
    (free : Bool) (r : RateLimiter) (now n : ℕ)
    → free ≡ true
    → try_times n (spend r) now ≡ n
    → (if (take_if free r).1 then 1 else 0) + try_times n (take_if free r).0 now ≡ suc n
try_once true r now n e h = omega (arith, h)
try_once false r now n e h = cc

-- Where the rate is above 1000 and below 2000 a second, the bucket is not a bound: one millisecond after
-- the refill time, any number of calls of `tryAcquire` in one instant are all granted.
pub try_times-all :
    (n : ℕ) (l : RateLimiter) (now : ℕ)
    → 1000 < l.max_requests_per_second
    → l.max_requests_per_second < 2000
    → 0 < l.max_burst
    → now ≡ suc l.last_refill_time
    → try_times n l now ≡ n
unfolding try_acquire refill
try_times-all zero l now fast slow room t = refl
try_times-all (suc n) l now fast slow room t =
    let (one, same) = refill-again l fast slow room in
    try_once _ (refill l now) now n (subst (λ k. leb 1 (refill l k).tokens ≡ true) (sym t) one) (
      try_times-all n (spend (refill l now)) now fast slow room (
        t
        ∙ ap suc
            (sym (subst (λ k. (refill l k).last_refill_time ≡ l.last_refill_time) (sym t) same))))

served_first :
    (tokens w : ℕ) (q : List ℕ)
    → 0 < tokens
    → (rest : List Settled) × ((serve tokens (w ∷ q)).1 ≡ resolved w ∷ rest)
served_first (suc tokens) w q h = (_, refl)
served_first zero w q h = elim h [ ]

-- The delay of the timer is long enough to earn a token.
delay_earns : (elapsed rate : ℕ) → 0 < rate → delay_of rate ≤ elapsed → 0 < elapsed * rate / 1000
delay_earns elapsed rate p h =
    let (low, high) = div_floor (1000 + (rate - 1)) rate p in
    let long : (1000 + (rate - 1)) / rate ≤ elapsed = ground arith in
    le-div 1 (elapsed * rate) 1000 (omega arith)
      (omega (arith, high, times_mono _ elapsed rate long))

-- The timer that was armed when the bucket was last refilled, or later, resolves the promise that has
-- waited longest, whatever the rate.
pub fire-serves :
    (l : RateLimiter) (w : ℕ) (q : List ℕ) (now : ℕ)
    → 0 < l.max_requests_per_second
    → 0 < l.max_burst
    → l.queue ≡ w ∷ q
    → l.last_refill_time + delay_of l.max_requests_per_second ≤ now
    → (rest : List Settled) × ((fire l now).1 ≡ resolved w ∷ rest)
unfolding fire flush refill
fire-serves l w q now p room waits late =
    let earned = delay_earns (now - l.last_refill_time) l.max_requests_per_second p (omega arith) in
    subst
      (λ queue. (rest : List Settled) × ((serve (refill l now).tokens queue).1 ≡ resolved w ∷ rest))
      (sym waits) (served_first _ w q (has_one _ l.max_burst l.tokens earned room))
