-- ===== src/PairMath/Ranges.antt =====
-- What the arguments of `getAmountOut` and `getAmountIn` of src/utils/pair-math.ts are where they return.
use native.Mathlib.Nat.{mul-zero}
use native.Mathlib.Decide.{dec_lt}
use coralswap_sdk.Common.{
  ℕ, zero, suc, ◌+◌, ◌-◌, ◌≤◌, ◌<◌, ◌≡◌, ◌≢◌, refl, ap, arith, ℤ, pos, negsuc, ◌≤ℤ◌, ok,
}
use coralswap_sdk.PairMath.{get_amount_out, get_amount_in}
use coralswap_sdk.PairMath.Pricing.{
  get_amount_out-eq_out_of, get_amount_in-eq_in_of, out_of, in_of, out_of_mono, in_of_covers,
}

-- A fee from 0% to 100%.
abbrev pub IsFee : ℤ → Type 0
IsFee fee = (pos 0 ≤ℤ fee) × (fee ≤ℤ pos 10000)

-- The arguments of a call of `getAmountIn` that returned, as natural numbers.
pub record Priced (o r s fee i : ℤ) : Type 0 where
  pub out : ℕ
  pub reserve_in : ℕ
  pub keep : ℕ
  pub fee_bps : ℕ
  pub out_eq : o ≡ pos out
  pub reserve_in_eq : r ≡ pos reserve_in
  pub reserve_out_eq : s ≡ pos (keep + out)
  pub fee_eq : fee ≡ pos fee_bps
  pub out_pos : 0 < out
  pub reserve_in_pos : 0 < reserve_in
  pub keep_pos : 0 < keep
  pub fee_lt : fee_bps < 10000
  pub in_eq : i ≡ pos (in_of out reserve_in (keep + out) (10000 - fee_bps))

module _ (i : ℤ) where
  zero_out : (r s fee : ℤ) → get_amount_in (pos 0) r s fee ≢ ok i
  unfolding get_amount_in
  zero_out r s fee e = ground arith

  negative_out : (n : ℕ) (r s fee : ℤ) → get_amount_in (negsuc n) r s fee ≢ ok i
  unfolding get_amount_in
  negative_out n r s fee e = ground arith

  zero_in : (o : ℕ) (s fee : ℤ) → get_amount_in (pos o) (pos 0) s fee ≢ ok i
  unfolding get_amount_in
  zero_in o s fee e = ground arith

  negative_in : (o n : ℕ) (s fee : ℤ) → get_amount_in (pos o) (negsuc n) s fee ≢ ok i
  unfolding get_amount_in
  negative_in o n s fee e = ground arith

  low_reserve : (o r s : ℕ) (fee : ℤ) → get_amount_in (pos o) (pos r) (pos s) fee ≡ ok i → o < s
  unfolding get_amount_in
  low_reserve o r s fee e = ground arith

  negative_reserve : (o r n : ℕ) (fee : ℤ) → get_amount_in (pos o) (pos r) (negsuc n) fee ≢ ok i
  unfolding get_amount_in
  negative_reserve o r n fee e = ground arith

  -- At a fee of 100% the divisor is zero.
  full_fee : (o r s : ℕ) → get_amount_in (pos o) (pos r) (pos s) (pos 10000) ≢ ok i
  unfolding get_amount_in
  full_fee o r s e = ground (arith, mul-zero (s - o))

-- The arguments in natural numbers, once they are known to be positive and in range.
Priced-nat :
    (o r s f : ℕ) {i : ℤ}
    → 0 < o
    → 0 < r
    → o < s
    → f < 10000
    → get_amount_in (pos o) (pos r) (pos s) (pos f) ≡ ok i
    → Priced (pos o) (pos r) (pos s) (pos f) i
Priced-nat o r s f {i} po pr ps hf e = record {
  out = o;
  reserve_in = r;
  keep = s - o;
  fee_bps = f;
  out_eq = refl;
  reserve_in_eq = refl;
  reserve_out_eq = ap pos (omega arith);
  fee_eq = refl;
  out_pos = po;
  reserve_in_pos = pr;
  keep_pos = omega arith;
  fee_lt = hf;
  in_eq = rw parts (cc (e, get_amount_in-eq_in_of o r s f po pr ps hf));
}
  where
    parts : s - o + o ≡ s
    parts = omega arith

-- Where `getAmountIn` returns, with a fee from 0% to 100%, its output is positive and below the output
-- reserve, the input reserve is positive, and the fee is under 100%.
pub get_amount_in-Priced :
    (o r s fee : ℤ) {i : ℤ} → IsFee fee → get_amount_in o r s fee ≡ ok i → Priced o r s fee i
get_amount_in-Priced o r s (negsuc f) hf e = absurd (omega arith)
get_amount_in-Priced (negsuc n) r s (pos f) hf e = absurd (negative_out _ n r s (pos f) e)
get_amount_in-Priced (pos zero) r s (pos f) hf e = absurd (zero_out _ r s (pos f) e)
get_amount_in-Priced (pos (suc o)) (negsuc n) s (pos f) hf e =
    absurd (negative_in _ (suc o) n s (pos f) e)
get_amount_in-Priced (pos (suc o)) (pos zero) s (pos f) hf e =
    absurd (zero_in _ (suc o) s (pos f) e)
get_amount_in-Priced (pos (suc o)) (pos (suc r)) (negsuc n) (pos f) hf e =
    absurd (negative_reserve _ (suc o) (suc r) n (pos f) e)
get_amount_in-Priced (pos (suc o)) (pos (suc r)) (pos s) (pos f) {i} hf e = elim (dec_lt f 10000) [
  | yes lt ↦
      Priced-nat (suc o) (suc r) s f (omega arith) (omega arith)
        (low_reserve i (suc o) (suc r) s (pos f) e) lt e
  | no full ↦
      let same : f ≡ 10000 = omega arith in absurd (full_fee i (suc o) (suc r) s (rw same at e))
]

-- Any input that is at least the one `getAmountIn` returned buys at least the output asked for.
pub Priced-buys :
    (o r s fee i : ℤ) (p : Priced o r s fee i) (b : ℕ)
    → in_of p.out p.reserve_in (p.keep + p.out) (10000 - p.fee_bps) ≤ b
    → (x : ℕ) × (get_amount_out (pos b) r s fee ≡ ok (pos x)) × (p.out ≤ x)
Priced-buys o r s fee i p b h =
    let g = 10000 - p.fee_bps in
    let pg : 0 < 10000 - p.fee_bps = omega arith in
    let least = in_of_covers p.out p.reserve_in p.keep g p.reserve_in_pos p.keep_pos pg in
    let mono = out_of_mono _ b p.reserve_in (p.keep + p.out) g p.reserve_in_pos (omega arith) h in
    (
      out_of b p.reserve_in (p.keep + p.out) g,
      rw (p.reserve_in_eq, p.reserve_out_eq, p.fee_eq)
          (get_amount_out-eq_out_of b p.reserve_in (p.keep + p.out) p.fee_bps (omega arith)
            p.reserve_in_pos (omega arith) (omega arith)),
      omega (arith, least, mono),
    )
