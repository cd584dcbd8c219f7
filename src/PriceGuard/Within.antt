-- ===== src/PriceGuard/Within.antt =====
-- What it takes to pass the guard of src/utils/redstone.ts.
use native.Mathlib.Decide.{dec_le}
use coralswap_sdk.Common.{
  ℕ, zero, suc, ◌+◌, ◌-◌, ◌*◌, ◌/◌, ◌≤◌, ◌<◌, ◌≡◌, ◌⊎◌, inl, inr, refl, ap, arith, true, false, ltb,
  Bool-cases, Option, none, some, ℤ, pos, negsuc, leb_ℤ, ltb_ℤ,
}
use coralswap_sdk.Common.Division.{div_floor, times_mono}
use coralswap_sdk.PriceGuard.{
  PriceGuardConfig, RedStonePayload, guard_passed, execution_scaled, deviation_bps, judge,
  compare_prices, with_prices, verify_redstone_payload,
}

-- In naturals: the scaled price, and its distance from the scale.
scaled_bounds :
    (e m x y : ℕ)
    → 0 < y
    → x * 100_000_000 / y ≡ e
    → 10000 * e < (10001 + m) * 100_000_000
    → (9999 - m) * 100_000_000 < 10000 * e
    → ((9999 - m) * y < 10000 * x) × (10000 * x < (10002 + m) * y)
scaled_bounds e m x y p q h l =
    let (low, high) = div_floor (x * 100_000_000) y p in
    let above = times_mono _ _ y h in
    let below = times_mono _ _ y l in
    let value = ap (λ (v : ℕ). v * y) q in
    (omega (arith, low, value, below, p), omega (arith, high, value, above, p))

over :
    (e : ℕ)
    → 100_000_000 < e
    → deviation_bps (pos e) ≡ pos ((e - 100_000_000) * 10000 / 100_000_000)
over e h = ground arith

under :
    (e : ℕ)
    → e ≤ 100_000_000
    → deviation_bps (pos e) ≡ pos ((100_000_000 - e) * 10000 / 100_000_000)
under e h = ground arith

-- The distance of the scaled price is within `m` basis points and one.
diff_bounds :
    (e m : ℕ)
    → m < 10000
    → ltb_ℤ (pos m) (deviation_bps (pos e)) ≡ false
    → (10000 * e < (10001 + m) * 100_000_000) × ((9999 - m) * 100_000_000 < 10000 * e)
diff_bounds e m some_left h = elim (dec_le e 100_000_000) [
  | yes low ↦
      let few : (100_000_000 - e) * 10000 / 100_000_000 ≤ m = ground (arith, under e low) in
      let bound = div_floor ((100_000_000 - e) * 10000) 100_000_000 (omega arith) in
      (omega (arith, few, bound), omega (arith, few, bound))
  | no high ↦
      let few : (e - 100_000_000) * 10000 / 100_000_000 ≤ m =
        ground (arith, over e (omega arith)) in
      let bound = div_floor ((e - 100_000_000) * 10000) 100_000_000 (omega arith) in
      (omega (arith, few, bound), omega (arith, few, bound))
]

positive :
    (z : ℤ)
    → (leb_ℤ z (pos 0) ≡ true) ⊎ ((n : ℕ) × (0 < n) × (z ≡ pos n) × (leb_ℤ z (pos 0) ≡ false))
positive (pos zero) = inl refl
positive (pos (suc n)) = inr (suc n, omega arith, refl, ground arith)
positive (negsuc n) = inl (ground arith)

-- The amounts and prices are positive, and the value that goes out is within `m` basis points of the value
-- that comes in, up to the rounding of two basis points.
pub record Fair (m : ℕ) (amount_in amount_out price_in price_out : ℤ) : Type 0 where
  pub value_in : (a p : ℕ) × (amount_in ≡ pos a) × (price_in ≡ pos p) × (0 < a * p)
  pub value_out : (a p : ℕ) × (amount_out ≡ pos a) × (price_out ≡ pos p) × (0 < a * p)
  pub not_below : (9999 - m) * (value_in.0 * value_in.1) < 10000 * (value_out.0 * value_out.1)
  pub not_above : 10000 * (value_out.0 * value_out.1) < (10002 + m) * (value_in.0 * value_in.1)

times_positive : (a b : ℕ) → 0 < a → 0 < b → 0 < a * b
times_positive a b p q = grind arith

judged :
    (d deviation : ℤ) (config : PriceGuardConfig)
    → judge deviation config ≡ guard_passed d
    → ltb_ℤ (pos config.max_deviation_bps) deviation ≡ false
judged d deviation config h = elim (Bool-cases (ltb_ℤ (pos config.max_deviation_bps) deviation)) [
  | inl wide ↦ cc (rw wide at h)
  | inr near ↦ near
]

compared-Fair :
    (a o p q : ℕ) (config : PriceGuardConfig) (d : ℤ)
    → config.max_deviation_bps < 10000
    → 0 < a
    → 0 < o
    → 0 < p
    → 0 < q
    → judge (deviation_bps (execution_scaled (pos a) (pos o) (pos p) (pos q))) config
      ≡ guard_passed d
    → Fair config.max_deviation_bps (pos a) (pos o) (pos p) (pos q)
compared-Fair a o p q config d small ha ho hp hq h =
    let e = o * q * 100_000_000 / (a * p) in
    let (high, low) = diff_bounds e config.max_deviation_bps small (judged d _ config h) in
    let (below, above) =
      scaled_bounds e config.max_deviation_bps (o * q) (a * p) (times_positive a p ha hp) refl high
        low in
    record {
      value_in = (a, p, refl, refl, times_positive a p ha hp);
      value_out = (o, q, refl, refl, times_positive o q ho hq);
      not_below = below;
      not_above = above;
    }

amounts-Fair :
    (amount_in amount_out : ℤ) (p q : ℕ) (config : PriceGuardConfig) (d : ℤ)
    → config.max_deviation_bps < 10000
    → 0 < p
    → 0 < q
    → compare_prices amount_in amount_out (pos p) (pos q) config ≡ guard_passed d
    → Fair config.max_deviation_bps amount_in amount_out (pos p) (pos q)
amounts-Fair amount_in amount_out p q config d small hp hq h = elim (positive amount_in) [
  | inl bad ↦ cc (rw bad at h)
  | inr (a, ha, ea, fa) ↦ elim (positive amount_out) [
    | inl bad ↦ cc (rw (fa, bad) at h)
    | inr (o, ho, eo, fo) ↦
        let judged_now = rw (fa, fo) at h in
        rw (ea, eo) (compared-Fair a o p q config d small ha ho hp hq (rw (ea, eo) at judged_now))
  ]
]

prices-Fair :
    (price_in price_out : Option ℤ) (s t : ℕ) (amount_in amount_out : ℤ) (config : PriceGuardConfig)
    (d : ℤ)
    → config.max_deviation_bps < 10000
    → with_prices price_in price_out s t amount_in amount_out config ≡ guard_passed d
    → (p : ℤ) × (q : ℤ) × (price_in ≡ some p)
      × (price_out ≡ some q)
      × Fair config.max_deviation_bps amount_in amount_out p q
prices-Fair none price_out s t amount_in amount_out config d small h = cc
prices-Fair (some x) none s t amount_in amount_out config d small h = cc
prices-Fair (some x) (some y) s t amount_in amount_out config d small h = elim (positive x) [
  | inl bad ↦ cc (rw bad at h)
  | inr (p, hp, ex, fx) ↦ elim (positive y) [
    | inl bad ↦ cc (rw (fx, bad) at h)
    | inr (q, hq, ey, fy) ↦
        let compared = rw (fx, fy) at h in
        (
          x,
          y,
          refl,
          refl,
          rw (ex, ey)
              (amounts-Fair amount_in amount_out p q config d small hp hq
                (rw (ex, ey) at compared)),
        )
  ]
]

-- Where the guard passes, and does not only skip, with a bound below 10000 basis points: the payload is no
-- older than allowed, it has a price for both symbols, the prices and the amounts are positive, and the
-- value that goes out is within the bound, and two basis points of rounding, of the value that comes in.
pub verify_redstone_payload-Fair :
    (payload : RedStonePayload) (s t : ℕ) (amount_in amount_out : ℤ) (config : PriceGuardConfig)
    (now : ℕ) (d : ℤ)
    → config.max_deviation_bps < 10000
    → verify_redstone_payload payload s t amount_in amount_out config now ≡ guard_passed d
    → (now ≤ payload.timestamp_ms + config.max_payload_age_ms)
      × ((p : ℤ) × (q : ℤ) × (payload.price_of s ≡ some p)
          × (payload.price_of t ≡ some q)
          × Fair config.max_deviation_bps amount_in amount_out p q)
unfolding verify_redstone_payload
verify_redstone_payload-Fair payload s t amount_in amount_out config now d small h =
    elim (Bool-cases (ltb (payload.timestamp_ms + config.max_payload_age_ms) now)) [
      | inl old ↦ cc (rw old at h)
      | inr fresh ↦ (
        ground arith,
        prices-Fair (payload.price_of s) (payload.price_of t) s t amount_in amount_out config d
            small (rw fresh at h),
      )
    ]
