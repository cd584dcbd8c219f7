-- ===== src/StopLoss/Trigger.antt =====
-- A stop loss of src/modules/stop-loss.ts, when it is created and when it is triggered.
use coralswap_sdk.Common.{
  ℕ, ◌+◌, ◌≤◌, ◌≡◌, refl, sym, ap, ◌∙◌, arith, Bool, true, false, not, Option, some, or_else,
  Result, ok, stale_oracle, validation, throw_if, ◌>>=◌, ◌>>◌, bind-returned, guard-passed, leb_ℤ,
}
use coralswap_sdk.Market.{Address}
use coralswap_sdk.StopLoss.{
  StopLossParams, Operation, OraclePriceSnapshot, Chain, get_oracle_price, assert_oracle_fresh,
  is_stop_loss_params, build_create_stop_loss_operation, is_stop_loss_triggered, is_stale,
  default_stale_after_ms,
}

not_thrown : (b : Bool) {u : Unit {0}} → throw_if b stale_oracle ≡ ok u → b ≡ false
not_thrown true e = cc
not_thrown false e = refl

not_stale :
    (c : Chain) (s : OraclePriceSnapshot) (stale : Option ℕ) (t : ℕ)
    → s.timestamp ≡ some t
    → {u : Unit {0}} → assert_oracle_fresh c s stale ≡ ok u
    → c.now_ms ≤ t + or_else stale default_stale_after_ms
unfolding assert_oracle_fresh
not_stale c s stale t known e =
    let limit = or_else stale default_stale_after_ms in
    let fresh = not_thrown (is_stale c.now_ms s.timestamp limit) e in
    let at : (is_stale c.now_ms (some t) limit ≡ false) =
      sym (ap (λ (k : Option ℕ). is_stale c.now_ms k limit) known) ∙ fresh in
    ground (arith, at)

-- A stop loss whose operation was built is not triggered by the price that it was checked against; where that
-- price has a timestamp, it is no older than the limit.
pub build_create_stop_loss_operation_above :
    (c : Chain) (params : StopLossParams) (signer : Address) (stale_after_ms : Option ℕ)
    {op : Operation}
    → build_create_stop_loss_operation c params signer stale_after_ms ≡ ok op
    → (is_stop_loss_triggered c params.trigger_price params.oracle_asset stale_after_ms ≡ ok false)
      × ((s : OraclePriceSnapshot) × (get_oracle_price c params.oracle_asset ≡ ok s)
          × ((t : ℕ)
              → s.timestamp ≡ some t
              → c.now_ms ≤ t + or_else stale_after_ms default_stale_after_ms))
unfolding build_create_stop_loss_operation is_stop_loss_triggered
build_create_stop_loss_operation_above c params signer stale e =
    let (valid, e1) = guard-passed (not (is_stop_loss_params c params)) validation _ e in
    let s = bind-returned (get_oracle_price c params.oracle_asset) _ e1 in
    let fresh = bind-returned (assert_oracle_fresh c s.value stale) _ s.then_rest in
    let (above, e2) =
      guard-passed (leb_ℤ s.value.price params.trigger_price) validation _ fresh.then_rest in
    (
      ap
            (λ (r : Result OraclePriceSnapshot). r >>= λ snapshot.
              assert_oracle_fresh c snapshot stale
              >> ok (leb_ℤ snapshot.price params.trigger_price))
            s.first
          ∙ ap (λ (r : Result (Unit {0})). r >> ok (leb_ℤ s.value.price params.trigger_price))
              fresh.first
          ∙ ap ok above,
      (s.value, s.first, λ t known. not_stale c s.value stale t known fresh.first),
    )
