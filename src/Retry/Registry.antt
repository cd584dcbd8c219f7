-- ===== src/Retry/Registry.antt =====
-- The circuit breakers by label, of src/utils/retry.ts. A label is a number.
use coralswap_sdk.Common.{ℕ, ◌==◌, if◌then◌else◌, Option, none, some, List, [], ◌∷◌}
use coralswap_sdk.Retry.{CircuitBreaker, CircuitBreakerOptions, new_breaker, set_options}

-- `circuitBreakersByLabel`
abbrev pub Breakers : Type 0
Breakers = List (ℕ × CircuitBreaker)

abbrev pub breaker_for : Breakers → ℕ → Option CircuitBreaker
breaker_for [] label = none
breaker_for ((l, b) ∷ rest) label = if l == label then some b else breaker_for rest label

-- The map after the breaker of `label` became `b`.
abbrev pub put_breaker : Breakers → ℕ → CircuitBreaker → Breakers
put_breaker [] label b = (label, b) ∷ []
put_breaker ((l, old) ∷ rest) label b =
    if l == label then (l, b) ∷ rest else (l, old) ∷ put_breaker rest label b

abbrev configured : Option CircuitBreaker → CircuitBreakerOptions → CircuitBreaker
configured none options = new_breaker options
configured (some existing) options = set_options existing options

unfoldable pub get_circuit_breaker :
    Breakers → ℕ → CircuitBreakerOptions → Breakers × CircuitBreaker
get_circuit_breaker breakers label options =
    let b = configured (breaker_for breakers label) options in (put_breaker breakers label b, b)

unfoldable pub reset_circuit_breakers : Breakers → Breakers
reset_circuit_breakers breakers = []
