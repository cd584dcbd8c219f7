-- ===== src/PriceGuard.antt =====
-- src/utils/redstone.ts: the guard that compares the price of a swap to that of the oracle. A feed symbol is a
-- number.
pub mod Within
mod Tests
use coralswap_sdk.Common.{
  ℕ, ◌+◌, ltb, if◌then◌else◌, Bool, ◌||◌, Option, none, some, ℤ, pos, ◌-ℤ◌, ◌*ℤ◌, quot, ltb_ℤ,
  leb_ℤ,
}

pub record PriceGuardConfig : Type 0 where
  pub min_guarded_amount_usd : ℤ
  pub max_deviation_bps : ℕ
  pub max_payload_age_ms : ℕ

-- The payload; `price_of s` is `prices[s.toUpperCase()]`.
pub record RedStonePayload : Type 0 where
  pub timestamp_ms : ℕ
  pub price_of : ℕ → Option ℤ

pub data GuardError : Type 0 where
  stale_oracle : GuardError
  missing_price_feed : (symbol : ℕ) → GuardError
  price_deviation : (deviation_bps : ℤ) → GuardError

-- `PriceGuardResult`, or an exception.
pub data Verdict : Type 0 where
  guard_skipped : Verdict
  guard_passed : (deviation_bps : ℤ) → Verdict
  guard_threw : GuardError → Verdict

abbrev pub scale : ℤ
scale = pos 100_000_000

abbrev pub execution_scaled : (amount_in amount_out price_in price_out : ℤ) → ℤ
execution_scaled amount_in amount_out price_in price_out =
    quot (amount_out *ℤ price_out *ℤ scale) (amount_in *ℤ price_in)

abbrev pub deviation_bps : ℤ → ℤ
deviation_bps execution =
    let diff = if ltb_ℤ scale execution then execution -ℤ scale else scale -ℤ execution in
    quot (diff *ℤ pos 10000) scale

abbrev pub judge : ℤ → PriceGuardConfig → Verdict
judge deviation config =
    if ltb_ℤ (pos config.max_deviation_bps) deviation
    then guard_threw (price_deviation deviation)
    else guard_passed deviation

abbrev pub compare_prices :
    (amount_in amount_out price_in price_out : ℤ) → PriceGuardConfig → Verdict
compare_prices amount_in amount_out price_in price_out config =
    if leb_ℤ amount_in (pos 0) || leb_ℤ amount_out (pos 0)
    then guard_skipped
    else judge (deviation_bps (execution_scaled amount_in amount_out price_in price_out)) config

abbrev pub with_prices :
    Option ℤ
    → Option ℤ
    → (symbol_in symbol_out : ℕ) (amount_in amount_out : ℤ) → PriceGuardConfig
    → Verdict
with_prices none price_out symbol_in symbol_out amount_in amount_out config =
    guard_threw (missing_price_feed symbol_in)
with_prices (some price_in) none symbol_in symbol_out amount_in amount_out config =
    guard_threw (missing_price_feed symbol_out)
with_prices (some price_in) (some price_out) symbol_in symbol_out amount_in amount_out config =
    if leb_ℤ price_in (pos 0) || leb_ℤ price_out (pos 0)
    then guard_threw (missing_price_feed (if leb_ℤ price_in (pos 0) then symbol_in else symbol_out))
    else compare_prices amount_in amount_out price_in price_out config

-- `now - payload.timestampMs > maxPayloadAgeMs`, with no difference below zero.
unfoldable pub verify_redstone_payload :
    RedStonePayload
    → (symbol_in symbol_out : ℕ) (amount_in amount_out : ℤ) → PriceGuardConfig
    → ℕ
    → Verdict
verify_redstone_payload payload symbol_in symbol_out amount_in amount_out config now =
    if ltb (payload.timestamp_ms + config.max_payload_age_ms) now
    then guard_threw stale_oracle
    else with_prices (payload.price_of symbol_in) (payload.price_of symbol_out) symbol_in symbol_out
        amount_in amount_out config

abbrev usd_of : Option ℤ → ℤ → Option ℤ
usd_of none amount_in = none
usd_of (some price) amount_in = some (quot (amount_in *ℤ price) (pos 10_000_000))

unfoldable pub estimate_usd_value : ℤ → (symbol_in : ℕ) → (ℕ → Option ℤ) → Option ℤ
estimate_usd_value amount_in symbol_in price_of = usd_of (price_of symbol_in) amount_in
