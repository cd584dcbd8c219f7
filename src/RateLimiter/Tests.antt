-- ===== src/RateLimiter/Tests.antt =====
-- A limiter of ten requests a second and a burst of two, and one of 1500 a second.
use coralswap_sdk.Common.{ℕ, ◌+◌, ◌-◌, ◌*◌, ◌≤◌, ◌≡◌, refl, arith, List, [], ◌∷◌}
use coralswap_sdk.RateLimiter.{
  Settled, resolved, new_limiter, acquire, fire, full_bucket, flush, refill, schedule_next,
}
use coralswap_sdk.RateLimiter.Runs.{
  History, begin, after_settling, Reachable, made, then_step, asks, fires,
}
use coralswap_sdk.RateLimiter.Invariants.{Sound, Reachable-Sound}
use coralswap_sdk.RateLimiter.Burst.{Reachable-spent}
use coralswap_sdk.RateLimiter.Instant.{fire-serves}

-- Three promises are asked for at once: two are granted, the third waits for the timer.
abbrev asked_by : History → ℕ → History
asked_by h who = after_settling h 0 (who ∷ []) (acquire h.limiter who 0)

abbrev third : History
third = asked_by (asked_by (asked_by (begin (full_bucket 10 2 0) 0) 1) 2) 3

abbrev served : History
served = after_settling third 100 [] (fire third.limiter 100)

served-spent : (served.spent ≡ 3) × (served.settled ≡ resolved 1 ∷ resolved 2 ∷ resolved 3 ∷ [])
unfolding acquire refill schedule_next fire flush
served-spent = (refl, refl)

served-Reachable : Reachable 10 2 0 served
unfolding new_limiter acquire refill schedule_next fire flush
served-Reachable =
    then_step
      (then_step
        (then_step (then_step (made refl) (asks 1 0 (omega arith))) (asks 2 0 (omega arith)))
        (asks 3 0 (omega arith)))
      (fires 100 100 refl (omega arith) (omega arith))

Reachable-Sound_example : Sound 10 2 served
Reachable-Sound_example = Reachable-Sound 10 2 0 served-Reachable

Reachable-spent_example : (0 ≤ 100) × (served.spent * 100 ≤ 2 * 100 + (100 - 0))
Reachable-spent_example = Reachable-spent 100 10 2 0 refl served-Reachable

fire-serves_example :
    (rest : List Settled) × ((fire (record (full_bucket 10 2 0) { queue = 7 ∷ [] }) 100).1
      ≡ resolved 7 ∷ rest)
fire-serves_example =
    fire-serves (record (full_bucket 10 2 0) { queue = 7 ∷ [] }) 7 [] 100 (omega arith)
      (omega arith) refl (omega arith)
