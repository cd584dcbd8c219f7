-- ===== src/RateLimiter.antt =====
-- src/utils/rate-limiter.ts: the token bucket that throttles RPC requests. Times are whole
-- milliseconds, the rate is a whole number of requests a second, and a waiting request is a number.
pub mod Runs
pub mod Moves
pub mod Invariants
pub mod Burst
pub mod Instant
mod Tests
use Prim.Native.Nat.{min, max}
use coralswap_sdk.Common.{
  ℕ, zero, suc, ◌+◌, ◌-◌, ◌*◌, ◌/◌, ltb, leb, ◌==◌, if◌then◌else◌, Bool, true, false, not, ◌&&◌,
  Option, none, some, List, [], ◌∷◌, ◌++◌, map, Result, ◌>>◌, throw_if, ok, plain,
}

pub record RateLimiter : Type 0 where
  pub tokens : ℕ
  pub max_burst : ℕ
  pub max_requests_per_second : ℕ
  pub last_refill_time : ℕ
  pub queue : List ℕ
  -- When the pending `setTimeout` fires, if there is one.
  pub timer : Option ℕ

-- How a promise of `acquire` settled: resolved, or rejected with `RateLimiterDestroyedError`.
pub data Settled : Type 0 where
  resolved rejected : ℕ → Settled

abbrev pub full_bucket : (max_requests_per_second max_burst now : ℕ) → RateLimiter
full_bucket rate burst now = record {
  tokens = burst;
  max_burst = burst;
  max_requests_per_second = rate;
  last_refill_time = now;
  queue = [];
  timer = none;
}

-- The constructor.
unfoldable pub new_limiter : (max_requests_per_second max_burst now : ℕ) → Result RateLimiter
new_limiter rate burst now =
    throw_if (rate == 0) plain >> (throw_if (burst == 0) plain >> ok (full_bucket rate burst now))

-- `tokensToAdd`; where the clock went back it is not positive in the source, and 0 here.
abbrev pub tokens_to_add : RateLimiter → ℕ → ℕ
tokens_to_add l now = (now - l.last_refill_time) * l.max_requests_per_second / 1000

unfoldable pub refill : RateLimiter → ℕ → RateLimiter
refill l now =
    let earned = tokens_to_add l now in
    record l {
      tokens = if ltb 0 earned then min l.max_burst (l.tokens + earned) else l.tokens;
      last_refill_time =
          if ltb 0 earned
          then l.last_refill_time + earned * 1000 / l.max_requests_per_second
          else l.last_refill_time;
    }

-- `Math.max(1, Math.ceil(1000 / rate))`, the rate being positive.
abbrev pub delay_of : ℕ → ℕ
delay_of rate = max 1 ((1000 + (rate - 1)) / rate)

abbrev pub arm : Option ℕ → ℕ → ℕ → Option ℕ
arm none rate now = some (now + delay_of rate)
arm (some at) rate now = some at

unfoldable pub schedule_next : RateLimiter → ℕ → RateLimiter
schedule_next l now = record l { timer = arm l.timer l.max_requests_per_second now }

-- The `while` loop of `_flush`: the tokens left, who was resolved, and who still waits.
abbrev pub serve : (tokens : ℕ) (queue : List ℕ) → ℕ × List Settled × List ℕ
serve tokens [] = (tokens, [], [])
serve zero (w ∷ queue) = (zero, [], w ∷ queue)
serve (suc tokens) (w ∷ queue) =
    let (left, served, waiting) = serve tokens queue in (left, resolved w ∷ served, waiting)

unfoldable pub flush : RateLimiter → RateLimiter × List Settled
flush l =
    let (left, served, waiting) = serve l.tokens l.queue in
    (record l { tokens = left; queue = waiting }, served)

abbrev pub is_empty : List ℕ → Bool
is_empty [] = true
is_empty (w ∷ queue) = false

unfoldable pub get_remaining_capacity : RateLimiter → ℕ → RateLimiter × ℕ
get_remaining_capacity l now = (refill l now, (refill l now).tokens)

abbrev pub enqueue : RateLimiter → ℕ → ℕ → RateLimiter
enqueue l who now = schedule_next (record l { queue = l.queue ++ (who ∷ []) }) now

abbrev pub spend : RateLimiter → RateLimiter
spend l = record l { tokens = l.tokens - 1 }

-- Whether a token is free: the promise returned has settled already, or the request waits.
abbrev pub grant_or_wait : Bool → RateLimiter → ℕ → ℕ → RateLimiter × List Settled
grant_or_wait true l who now = (spend l, resolved who ∷ [])
grant_or_wait false l who now = (enqueue l who now, [])

unfoldable pub acquire : RateLimiter → ℕ → ℕ → RateLimiter × List Settled
acquire l who now =
    let r = refill l now in grant_or_wait (leb 1 r.tokens && is_empty r.queue) r who now

abbrev pub take_if : Bool → RateLimiter → RateLimiter × Bool
take_if true l = (spend l, true)
take_if false l = (l, false)

unfoldable pub try_acquire : RateLimiter → ℕ → RateLimiter × Bool
try_acquire l now = let r = refill l now in take_if (leb 1 r.tokens) r

unfoldable pub destroy : RateLimiter → RateLimiter × List Settled
destroy l = (record l { timer = none; queue = [] }, map rejected l.queue)

abbrev pub rearm : Bool → RateLimiter → ℕ → RateLimiter
rearm true l now = schedule_next l now
rearm false l now = l

-- The callback of the timer.
unfoldable pub fire : RateLimiter → ℕ → RateLimiter × List Settled
fire l now =
    let (f, served) = flush (refill (record l { timer = none }) now) in
    (rearm (not (is_empty f.queue) && ltb f.tokens 1) f now, served)
