-- ===== src/Swap/Reverse.antt =====
-- `computeHopsReverse` against `computeHops` of src/modules/swap.ts.
use mathlib.Core.List.{reverse, reverse_aux, reverse-reverse}
use mathlib.Core.Path.{subst}
use coralswap_sdk.Common.{
  ℕ, ◌-◌, ◌+◌, ◌≤◌, ◌||◌, ◌≡◌, refl, ap, sym, ◌∙◌, arith, false, ℤ, pos, List, [], ◌∷◌, ok, is_zero,
  ok-injective, bind-returned, guard-passed,
}
use coralswap_sdk.PairMath.Pricing.{in_of}
use coralswap_sdk.Market.{Market, Address}
use coralswap_sdk.PairMath.Ranges.{IsFee, Priced, get_amount_in-Priced, Priced-buys}
use coralswap_sdk.Swap.Hops.{
  HopResult, Side, make_hop, read_side, find_pair, is_token0, hop_forward, hop_backward,
  compute_hops, hops_from_end, compute_hops_reverse, get_amount_in,
}

-- Every pair charges a fee from 0% to 100%.
abbrev pub FeesInRange : Market → Type 0
FeesInRange m = (pair : Address) (fee : ℤ) → m.get_dynamic_fee pair ≡ ok fee → IsFee fee

pub side-IsFee :
    (m : Market) (fees : FeesInRange m) (x y : Address) (side : Side)
    → read_side m x y ≡ ok side
    → IsFee side.fee_bps
unfolding read_side
side-IsFee m fees x y side e =
    let p = bind-returned (find_pair m x y) _ e in
    let r = bind-returned (m.get_reserves p.value) _ p.then_rest in
    let f = bind-returned (m.get_dynamic_fee p.value) _ r.then_rest in
    let z = bind-returned (is_token0 m p.value x) _ f.then_rest in
    subst IsFee (ap (λ s. s.fee_bps) (ok-injective z.then_rest)) (fees p.value f.value f.first)

-- The amount that a list of hops ends with, and the one that it begins with.
abbrev pub last_amount : ℤ → List HopResult → ℤ
last_amount amount [] = amount
last_amount amount (hop ∷ hops) = last_amount hop.amount_out hops

abbrev pub first_amount : ℤ → List HopResult → ℤ
first_amount amount [] = amount
first_amount amount (hop ∷ hops) = hop.amount_in

pos-injective : {m n : ℕ} → pos m ≡ pos n → m ≡ n
pos-injective e = cc

-- What a backward hop that returned has read and computed.
record Backward (m : Market) (c : ℤ) (x y : Address) (hop : HopResult) : Type 0 where
  side : Side
  read : read_side m x y ≡ ok side
  liquid : (is_zero side.reserve_in || is_zero side.reserve_out) ≡ false
  priced : get_amount_in c side.reserve_in side.reserve_out side.fee_bps ≡ ok hop.amount_in

hop_backward-Backward :
    (m : Market) (c : ℤ) (x y : Address) (hop : HopResult)
    → hop_backward m c x y ≡ ok hop
    → Backward m c x y hop
unfolding hop_backward
hop_backward-Backward m c x y hop e =
    let s = bind-returned (read_side m x y) _ e in
    let (liquid, r) = guard-passed _ _ _ s.then_rest in
    let p = bind-returned _ _ r in
    record {
      side = s.value;
      read = s.first;
      liquid = liquid;
      priced = p.first ∙ ap ok (ok_amount_in p.then_rest);
    }
  where
    ok_amount_in : {h h' : HopResult} → ok h ≡ ok h' → h.amount_in ≡ h'.amount_in
    ok_amount_in q = cc

hop_forward-buys :
    (m : Market) (c b : ℕ) (x y : Address) (hop : HopResult) (w : Backward m (pos c) x y hop)
    → IsFee w.side.fee_bps
    → (i : ℕ) → hop.amount_in ≡ pos i
    → i ≤ b
    → (h : HopResult) × (o : ℕ) × (hop_forward m (pos b) x y ≡ ok h)
      × (h.amount_out ≡ pos o)
      × (c ≤ o)
unfolding hop_forward
hop_forward-buys m c b x y hop w hf i e le =
    let s = w.side in
    let p = get_amount_in-Priced (pos c) s.reserve_in s.reserve_out s.fee_bps hf w.priced in
    let (o, bought, enough) =
      Priced-buys _ _ _ _ _ p b (omega (arith, pos-injective (sym e ∙ p.in_eq))) in
    (
      make_hop x y s (pos b) (pos o),
      o,
      rw (w.read, w.liquid, bought) refl,
      refl,
      omega (arith, enough, pos-injective p.out_eq),
    )

-- From `c` or more at the head of `path`, the forward computation returns and ends with `out` or more.
abbrev Reaches : Market → ℕ → List Address → ℕ → Type 0
Reaches m c path out =
    (b : ℕ)
    → c ≤ b
    → (hops : List HopResult) × (x : ℕ) × (compute_hops m (pos b) path ≡ ok hops)
      × (last_amount (pos b) hops ≡ pos x)
      × (out ≤ x)

Reaches-step :
    (m : Market) (c out : ℕ) (x y : Address) (tail : List Address) (hop : HopResult)
    (w : Backward m (pos c) x y hop)
    → IsFee w.side.fee_bps
    → (i : ℕ) → hop.amount_in ≡ pos i
    → Reaches m c (y ∷ tail) out
    → Reaches m i (x ∷ y ∷ tail) out
unfolding compute_hops
Reaches-step m c out x y tail hop w hf i e reach b le =
    let (h, o, forward, paid, enough) = hop_forward-buys m c b x y hop w hf i e le in
    let (hops, z, later, last, all_of_it) = reach o enough in
    (h ∷ hops, z, rw (forward, paid, later) refl, rw paid last, all_of_it)

-- The loop keeps this: the part of the path behind it is reached from the amount in hand.
hops_from_end-Reaches :
    (m : Market) (fees : FeesInRange m) (c out : ℕ) (y : Address) (rest tail : List Address)
    (acc hops : List HopResult)
    → hops_from_end m (pos c) (y ∷ rest) acc ≡ ok hops
    → first_amount (pos out) acc ≡ pos c
    → Reaches m c (y ∷ tail) out
    → (i : ℕ) × (first_amount (pos out) hops ≡ pos i)
      × Reaches m i (reverse_aux (y ∷ rest) tail) out
unfolding hops_from_end
hops_from_end-Reaches m fees c out y [] tail acc hops e first reach =
    (c, subst (λ l. first_amount (pos out) l ≡ pos c) (ok-injective e) first, reach)
hops_from_end-Reaches m fees c out y (x ∷ rest) tail acc hops e first reach =
    hops_from_end-Reaches m fees i out x rest (y ∷ tail) (hop ∷ acc) hops (rw amount at e') amount
      (Reaches-step m c out x y tail hop w fee i amount reach)
  where
    s : record {
      value : HopResult;
      first : hop_backward m (pos c) x y ≡ ok value;
      then_rest : hops_from_end m value.amount_in (x ∷ rest) (value ∷ acc) ≡ ok hops;
    }
    s = bind-returned (hop_backward m (pos c) x y) _ e

    hop : HopResult
    hop = s.value

    e' : hops_from_end m hop.amount_in (x ∷ rest) (hop ∷ acc) ≡ ok hops
    e' = s.then_rest

    w : Backward m (pos c) x y hop
    w = hop_backward-Backward m (pos c) x y hop s.first

    fee : IsFee w.side.fee_bps
    fee = side-IsFee m fees x y w.side w.read

    p : Priced (pos c) w.side.reserve_in w.side.reserve_out w.side.fee_bps hop.amount_in
    p = get_amount_in-Priced (pos c) _ _ _ fee w.priced

    i : ℕ
    i = in_of p.out p.reserve_in (p.keep + p.out) (10000 - p.fee_bps)

    amount : hop.amount_in ≡ pos i
    amount = p.in_eq

abbrev Covered : Market → ℕ → List Address → List HopResult → Type 0
Covered m out path hops =
    (hops' : List HopResult) × (i x : ℕ) × (first_amount (pos out) hops ≡ pos i)
    × (compute_hops m (pos i) path ≡ ok hops')
    × (last_amount (pos i) hops' ≡ pos x)
    × (out ≤ x)

Covered-reversed :
    (m : Market) (fees : FeesInRange m) (out : ℕ) (rev : List Address) (hops : List HopResult)
    → hops_from_end m (pos out) rev [] ≡ ok hops
    → Covered m out (reverse rev) hops
unfolding hops_from_end compute_hops
Covered-reversed m fees out [] hops e = (
  [],
  out,
  out,
  subst (λ l. first_amount (pos out) l ≡ pos out) (ok-injective e) refl,
  refl,
  refl,
  omega arith,
)
Covered-reversed m fees out (y ∷ rest) hops e =
    let alone : Reaches m out (y ∷ []) out = λ b le. ([], b, refl, refl, le) in
    let (i, first, reach) = hops_from_end-Reaches m fees out out y rest [] [] hops e refl alone in
    let (hops', x, forward, last, enough) = reach i (omega arith) in
    (hops', i, x, first, forward, last, enough)

-- Where every fee is from 0% to 100% and `computeHopsReverse` returns hops for a wanted output,
-- `computeHops` from the input of the first of them, along the same path, returns and ends with at
-- least the wanted output.
pub compute_hops_reverse_covers :
    (m : Market) (fees : FeesInRange m) (out : ℕ) (path : List Address) {hops : List HopResult}
    → compute_hops_reverse m (pos out) path ≡ ok hops
    → (hops' : List HopResult) × (i x : ℕ) × (first_amount (pos out) hops ≡ pos i)
      × (compute_hops m (pos i) path ≡ ok hops')
      × (last_amount (pos i) hops' ≡ pos x)
      × (out ≤ x)
unfolding compute_hops_reverse
compute_hops_reverse_covers m fees out path {hops} e =
    subst (λ p. Covered m out p hops) (reverse-reverse path)
      (Covered-reversed m fees out (reverse path) hops e)
