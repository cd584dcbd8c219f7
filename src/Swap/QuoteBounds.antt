-- ===== src/Swap/QuoteBounds.antt =====
-- What the direct quotes of src/modules/swap.ts promise about slippage.
use native.Mathlib.Nat.{mul-le-mul_left}
use mathlib.Core.Path.{subst}
use coralswap_sdk.Common.{
  ok-injective, err, validation, ltb_ℤ, if◌then◌else◌, ◌||◌, ℕ, ◌+◌, ◌-◌, ◌*◌, ◌/◌, ◌≤◌, ◌<◌, ◌≡◌,
  ◌⊎◌, inl, inr, refl, none, some, ap, sym, ◌∙◌, arith, ℤ, pos, negsuc, Option, ok, bind-returned,
  or_else, sub_ℕ-eq_pos,
}
use coralswap_sdk.Common.Division.{div-le, div_floor, left_over}
use coralswap_sdk.Market.{Market, Client, Address}
use coralswap_sdk.PairMath.Pricing.{in_of}
use coralswap_sdk.PairMath.Ranges.{get_amount_in-Priced, Priced-buys}
use coralswap_sdk.PairMath.Sales.{get_amount_out-Sold}
use coralswap_sdk.Swap.Hops.{Side, read_side, get_amount_out, get_amount_in}
use coralswap_sdk.Swap.Quote.{
  exact_in, exact_out, SwapQuote, SwapRequest, Amounts, resolve_slippage_bps, less_slippage,
  plus_slippage, direct_amounts, get_direct_quote,
}
use coralswap_sdk.Swap.Reverse.{FeesInRange, side-IsFee}

-- The tolerance is that of the request, or else the client's default, or else 50 basis points.
abbrev pub Asked : Client → Option ℤ → ℕ → Type 0
Asked client (some requested) n = requested ≡ pos n
Asked client none n =
    (client.default_slippage_bps ≡ some (pos n)) ⊎ ((client.default_slippage_bps ≡ none) × (n ≡ 50))

asked :
    (client : Client) (requested : Option ℤ) (n : ℕ)
    → or_else requested (or_else client.default_slippage_bps (pos 50)) ≡ pos n
    → Asked client requested n
asked client (some requested) n e = e
asked client none n e = go client.default_slippage_bps refl e
  where
    go :
        (d : Option ℤ)
        → client.default_slippage_bps ≡ d
        → or_else d (pos 50) ≡ pos n
        → Asked client none n
    go none known same = inr (known, cc)
    go (some v) known same = inl (known ∙ ap some same)

-- A tolerance that is accepted is a whole number of basis points up to 50%, and the one asked for.
slippage_range :
    (client : Client) (requested : Option ℤ) {s : ℤ}
    → resolve_slippage_bps client requested ≡ ok s
    → (n : ℕ) × (s ≡ pos n) × (n ≤ 5000) × Asked client requested n
unfolding resolve_slippage_bps
slippage_range client requested {s} e =
    go (or_else requested (or_else client.default_slippage_bps (pos 50))) refl e
  where
    go :
        (t : ℤ)
        → or_else requested (or_else client.default_slippage_bps (pos 50)) ≡ t
        → (if ltb_ℤ t (pos 0) || ltb_ℤ (pos 5000) t then err validation else ok t) ≡ ok s
        → (n : ℕ) × (s ≡ pos n) × (n ≤ 5000) × Asked client requested n
    go (pos n) which e' = (n, ground arith, ground arith, asked client requested n which)
    go (negsuc n) which e' = absurd (ground arith)

abbrev amounts_of : SwapQuote → Amounts
amounts_of q = record {
  amount_in = q.amount_in;
  amount_out = q.amount_out;
  amount_out_min = q.amount_out_min;
}

-- What a direct quote that returned has read and computed.
record Direct (m : Market) (client : Client) (r : SwapRequest) (x y : Address) (q : SwapQuote)
    : Type 0 where
  side : Side
  slippage : ℕ
  read : read_side m x y ≡ ok side
  tolerated : slippage ≤ 5000
  wanted : Asked client r.slippage_bps slippage
  amounts : direct_amounts r.trade_type r.amount (pos slippage) side ≡ ok (amounts_of q)

get_direct_quote-Direct :
    (m : Market) (client : Client) (r : SwapRequest) (x y : Address) (q : SwapQuote)
    → get_direct_quote m client r x y ≡ ok q
    → Direct m client r x y q
unfolding get_direct_quote
get_direct_quote-Direct m client r x y q e =
    let s = bind-returned (read_side m x y) _ e in
    let t = bind-returned (resolve_slippage_bps client r.slippage_bps) _ s.then_rest in
    let a = bind-returned (direct_amounts r.trade_type r.amount t.value s.value) _ t.then_rest in
    let (n, range, limit, which) = slippage_range client r.slippage_bps t.first in
    record {
      side = s.value;
      slippage = n;
      read = s.first;
      tolerated = limit;
      wanted = which;
      amounts =
          subst (λ v. direct_amounts r.trade_type r.amount v s.value ≡ ok (amounts_of q)) range
            (a.first ∙ ap (λ v. ok (amounts_of v)) (ok-injective a.then_rest));
    }

split : (o a s : ℕ) → o * a + o * s ≡ o * (a + s)
split o a s = grind arith

nat_less_slippage :
    (o s : ℕ)
    → s ≤ 5000
    → (k : ℕ) × (less_slippage (pos o) (pos s) ≡ pos k)
      × (k ≤ o)
      × (o * (10000 - s) ≤ k * 10000)
      × (k * 10000 < o * (10000 - s) + 10000)
unfolding less_slippage
nat_less_slippage o s h =
    (o - o * s / 10000, sub_ℕ-eq_pos o (o * s / 10000) below, omega arith, kept, near)
  where
    below : o * s / 10000 ≤ o
    below =
        div-le o (o * s) 10000 (omega (arith, mul-le-mul_left {m = s} {n = 10000} o (omega arith)))
          (omega arith)

    parts : o * (10000 - s) + o * s ≡ o * 10000
    parts = split o (10000 - s) s ∙ ap (λ (n : ℕ). o * n) (omega arith)

    near : (o - o * s / 10000) * 10000 < o * (10000 - s) + 10000
    near = omega (arith, parts, (div_floor (o * s) 10000 (omega arith)).1, below)

    kept : o * (10000 - s) ≤ (o - o * s / 10000) * 10000
    kept =
        left_over (o * s / 10000) s o 10000 below (omega arith)
          (omega (arith, (div_floor (o * s) 10000 (omega arith)).0))

exact_in_amounts :
    (amount : ℤ) (s : ℕ) (side : Side) (q : SwapQuote)
    → direct_amounts exact_in amount (pos s) side ≡ ok (amounts_of q)
    → (q.amount_in ≡ amount)
      × (get_amount_out amount side.reserve_in side.reserve_out side.fee_bps ≡ ok q.amount_out)
      × (q.amount_out_min ≡ less_slippage q.amount_out (pos s))
unfolding direct_amounts
exact_in_amounts amount s side q e =
    let b =
      bind-returned (get_amount_out amount side.reserve_in side.reserve_out side.fee_bps) _ e in
    let same = ok-injective b.then_rest in
    (
      ap (λ v. v.amount_in) (sym same),
      b.first ∙ ap (λ v. ok v.amount_out) same,
      ap (λ v. v.amount_out_min) (sym same) ∙ ap (λ v. less_slippage v.amount_out (pos s)) same,
    )

exact_out_amounts :
    (amount : ℤ) (s : ℕ) (side : Side) (q : SwapQuote)
    → direct_amounts exact_out amount (pos s) side ≡ ok (amounts_of q)
    → (base : ℤ) × (get_amount_in amount side.reserve_in side.reserve_out side.fee_bps ≡ ok base)
      × (q.amount_in ≡ plus_slippage base (pos s))
      × (q.amount_out ≡ amount)
      × (q.amount_out_min ≡ amount)
unfolding direct_amounts
exact_out_amounts amount s side q e =
    let b =
      bind-returned (get_amount_in amount side.reserve_in side.reserve_out side.fee_bps) _ e in
    let same = ok-injective b.then_rest in
    (
      b.value,
      b.first,
      ap (λ v. v.amount_in) (sym same),
      ap (λ v. v.amount_out) (sym same),
      ap (λ v. v.amount_out_min) (sym same),
    )

-- A direct exact-in quote, where the fees are from 0% to 100%, is for the amount asked and expects what
-- `getAmountOut` returns for it on the reserves that the quote read. The tolerance is that of the request, or
-- else the client's default, or else 50 basis points, and it is at most 50%; the minimum is the expected output
-- less the tolerance, rounded up to the next whole number.
pub get_direct_quote_exact_in :
    (m : Market) (client : Client) (fees : FeesInRange m) (r : SwapRequest) (x y : Address)
    {q : SwapQuote}
    → r.trade_type ≡ exact_in
    → get_direct_quote m client r x y ≡ ok q
    → (q.amount_in ≡ r.amount)
      × ((side : Side) × (o k s : ℕ) × (read_side m x y ≡ ok side)
          × (get_amount_out r.amount side.reserve_in side.reserve_out side.fee_bps ≡ ok (pos o))
          × (q.amount_out ≡ pos o)
          × (q.amount_out_min ≡ pos k)
          × Asked client r.slippage_bps s
          × (s ≤ 5000)
          × (o * (10000 - s) ≤ k * 10000)
          × (k * 10000 < o * (10000 - s) + 10000))
get_direct_quote_exact_in m client fees r x y {q} kind e =
    let d = get_direct_quote-Direct m client r x y q e in
    let paid =
      subst (λ k. direct_amounts k r.amount (pos d.slippage) d.side ≡ ok (amounts_of q)) kind
        d.amounts in
    let (same_in, bought, least) = exact_in_amounts r.amount d.slippage d.side q paid in
    let sold = get_amount_out-Sold _ _ _ _ (side-IsFee m fees x y d.side d.read) bought in
    let (k, min, above, share, near) = nat_less_slippage sold.out d.slippage d.tolerated in
    (
      same_in,
      (
        d.side,
        sold.out,
        k,
        d.slippage,
        d.read,
        bought ∙ ap ok sold.out_eq,
        sold.out_eq,
        least ∙ ap (λ v. less_slippage v (pos d.slippage)) sold.out_eq ∙ min,
        d.wanted,
        d.tolerated,
        share,
        near,
      ),
    )

-- A direct exact-out quote, where the fees are from 0% to 100%, is for the output asked, also as its
-- minimum. Its input is what `getAmountIn` returns for that output on the reserves that the quote read,
-- raised by the tolerance of the request, or else the client's default, or else 50 basis points, rounded
-- down; and it is enough: `getAmountOut` of that input returns at least the output asked.
pub get_direct_quote_exact_out :
    (m : Market) (client : Client) (fees : FeesInRange m) (r : SwapRequest) (x y : Address)
    {q : SwapQuote}
    → r.trade_type ≡ exact_out
    → get_direct_quote m client r x y ≡ ok q
    → (q.amount_out ≡ r.amount)
      × (q.amount_out_min ≡ r.amount)
      × ((side : Side) × (wanted o i s : ℕ) × (read_side m x y ≡ ok side)
          × (get_amount_in r.amount side.reserve_in side.reserve_out side.fee_bps ≡ ok (pos i))
          × Asked client r.slippage_bps s
          × (q.amount_in ≡ pos (i + i * s / 10000))
          × (get_amount_out q.amount_in side.reserve_in side.reserve_out side.fee_bps ≡ ok (pos o))
          × (r.amount ≡ pos wanted)
          × (wanted ≤ o))
unfolding plus_slippage
get_direct_quote_exact_out m client fees r x y {q} kind e =
    let d = get_direct_quote-Direct m client r x y q e in
    let paid =
      subst (λ k. direct_amounts k r.amount (pos d.slippage) d.side ≡ ok (amounts_of q)) kind
        d.amounts in
    let (base, priced, in_eq, out_eq, min_eq) =
      exact_out_amounts r.amount d.slippage d.side q paid in
    let p = get_amount_in-Priced _ _ _ _ (side-IsFee m fees x y d.side d.read) priced in
    let i = in_of p.out p.reserve_in (p.keep + p.out) (10000 - p.fee_bps) in
    let padded : ℕ = i + i * d.slippage / 10000 in
    let (o, bought, enough) = Priced-buys _ _ _ _ _ p padded (omega arith) in
    let amount : q.amount_in ≡ pos padded =
      in_eq ∙ ap (λ b. plus_slippage b (pos d.slippage)) p.in_eq in
    (
      out_eq,
      min_eq,
      (
        d.side,
        p.out,
        o,
        i,
        d.slippage,
        d.read,
        priced ∙ ap ok p.in_eq,
        d.wanted,
        amount,
        subst
            (λ v. get_amount_out v d.side.reserve_in d.side.reserve_out d.side.fee_bps ≡ ok (pos o))
            (sym amount) bought,
        p.out_eq,
        enough,
      ),
    )
