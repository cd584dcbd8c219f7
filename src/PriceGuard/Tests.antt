-- ===== src/PriceGuard/Tests.antt =====
-- A payload with prices of two feeds, and swaps near and far from them.
use coralswap_sdk.Common.{◌+◌, ◌≤◌, ◌≡◌, refl, arith, ◌==◌, if◌then◌else◌, some, none, ℤ, pos}
use coralswap_sdk.PriceGuard.{
  PriceGuardConfig, RedStonePayload, guard_passed, guard_threw, missing_price_feed, price_deviation,
  verify_redstone_payload, estimate_usd_value,
}
use coralswap_sdk.PriceGuard.Within.{Fair, verify_redstone_payload-Fair}

abbrev config : PriceGuardConfig
config = record {
  min_guarded_amount_usd = pos 100_000_000_00;
  max_deviation_bps = 200;
  max_payload_age_ms = 300_000;
}

-- Feed 1 is at 0.12 dollars, feed 2 at one.
abbrev payload : RedStonePayload
payload = record {
  timestamp_ms = 1000;
  price_of = λ s.
      if s == 1 then some (pos 12_000_000) else if s == 2 then some (pos 100_000_000) else none;
}

near : verify_redstone_payload payload 1 2 (pos 1000) (pos 119) config 5000 ≡ guard_passed (pos 83)
unfolding verify_redstone_payload
near = refl

far :
    verify_redstone_payload payload 1 2 (pos 1000) (pos 100) config 5000
    ≡ guard_threw (price_deviation (pos 1666))
unfolding verify_redstone_payload
far = refl

no_feed :
    verify_redstone_payload payload 1 3 (pos 0) (pos 100) config 5000
    ≡ guard_threw (missing_price_feed 3)
unfolding verify_redstone_payload
no_feed = refl

worth : estimate_usd_value (pos 10_000_000) 1 payload.price_of ≡ some (pos 12_000_000)
unfolding estimate_usd_value
worth = refl

verify_redstone_payload-Fair_example :
    (5000 ≤ 1000 + 300_000)
    × ((p : ℤ) × (q : ℤ) × (payload.price_of 1 ≡ some p)
        × (payload.price_of 2 ≡ some q)
        × Fair 200 (pos 1000) (pos 119) p q)
verify_redstone_payload-Fair_example =
    verify_redstone_payload-Fair payload 1 2 (pos 1000) (pos 119) config 5000 (pos 83) (omega arith)
      near
