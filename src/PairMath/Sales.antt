-- ===== src/PairMath/Sales.antt =====
-- What the arguments and the result of `getAmountOut` of src/utils/pair-math.ts are where it returns.
use coralswap_sdk.Common.{
  ℕ, ◌+◌, ◌-◌, ◌*◌, ◌≤◌, ◌<◌, ◌≡◌, ◌≢◌, refl, sym, ◌∙◌, arith, ℤ, pos, negsuc, ok, ok-injective,
}
use coralswap_sdk.PairMath.{get_amount_out}
use coralswap_sdk.PairMath.Pricing.{get_amount_out_safe, get_amount_out-positive}
use coralswap_sdk.PairMath.Ranges.{IsFee}

-- A sale that returned, in natural numbers.
pub record Sold (a r s fee o : ℤ) : Type 0 where
  pub amount_in : ℕ
  pub reserve_in : ℕ
  pub reserve_out : ℕ
  pub fee_bps : ℕ
  pub out : ℕ
  pub amount_in_eq : a ≡ pos amount_in
  pub reserve_in_eq : r ≡ pos reserve_in
  pub reserve_out_eq : s ≡ pos reserve_out
  pub fee_eq : fee ≡ pos fee_bps
  pub out_eq : o ≡ pos out
  pub amount_in_pos : 0 < amount_in
  pub out_lt : out < reserve_out
  pub product : reserve_in * reserve_out ≤ (reserve_in + amount_in) * (reserve_out - out)

module _ (o : ℤ) where
  negative_amount : (n : ℕ) (r s fee : ℤ) → get_amount_out (negsuc n) r s fee ≢ ok o
  unfolding get_amount_out
  negative_amount n r s fee e = ground arith

  negative_in : (a : ℕ) (n : ℕ) (s fee : ℤ) → get_amount_out (pos a) (negsuc n) s fee ≢ ok o
  unfolding get_amount_out
  negative_in a n s fee e = ground arith

  negative_out : (a r n : ℕ) (fee : ℤ) → get_amount_out (pos a) (pos r) (negsuc n) fee ≢ ok o
  unfolding get_amount_out
  negative_out a r n fee e = ground arith

-- Where `getAmountOut` returns, with a fee from 0% to 100%, all its arguments are non-negative, the
-- result is non-negative and below the output reserve, and the product of the reserves does not fall.
pub get_amount_out-Sold :
    (a r s fee : ℤ) {o : ℤ} → IsFee fee → get_amount_out a r s fee ≡ ok o → Sold a r s fee o
get_amount_out-Sold a r s (negsuc f) hf e = absurd (omega arith)
get_amount_out-Sold (negsuc n) r s (pos f) hf e = absurd (negative_amount _ n r s (pos f) e)
get_amount_out-Sold (pos a) (negsuc n) s (pos f) hf e = absurd (negative_in _ a n s (pos f) e)
get_amount_out-Sold (pos a) (pos r) (negsuc n) (pos f) hf e =
    absurd (negative_out _ a r n (pos f) e)
get_amount_out-Sold (pos a) (pos r) (pos s) (pos f) hf e =
    let (pa, pr, ps) = get_amount_out-positive a r s (pos f) e in
    let (out, returned, below, grows) = get_amount_out_safe a r s f pa pr ps (omega arith) in
    record {
      amount_in = a;
      reserve_in = r;
      reserve_out = s;
      fee_bps = f;
      out = out;
      amount_in_eq = refl;
      reserve_in_eq = refl;
      reserve_out_eq = refl;
      fee_eq = refl;
      out_eq = ok-injective (sym e ∙ returned);
      amount_in_pos = pa;
      out_lt = below;
      product = grows;
    }
