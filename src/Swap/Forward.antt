-- ===== src/Swap/Forward.antt =====
-- What `computeHops` of src/modules/swap.ts returns.
use coralswap_sdk.Common.{
  ℕ, ◌+◌, ◌-◌, ◌*◌, ◌≤◌, ◌<◌, ◌≡◌, ap, sym, ℤ, pos, List, [], ◌∷◌, ok, ok-injective, bind-returned,
  guard-passed,
}
use mathlib.Core.Path.{subst}
use coralswap_sdk.Market.{Market, Address}
use coralswap_sdk.PairMath.Sales.{get_amount_out-Sold}
use coralswap_sdk.Swap.Hops.{
  HopResult, Side, make_hop, read_side, hop_forward, compute_hops, get_amount_out,
}
use coralswap_sdk.Swap.Reverse.{FeesInRange, side-IsFee}

-- A hop that trades on the reserves that were read: it pays out less than the output reserve, and the
-- product of the two reserves does not fall.
abbrev pub SafeHop : Market → HopResult → Type 0
SafeHop m h =
    (side : Side) × (a r s o : ℕ) × (read_side m h.token_in h.token_out ≡ ok side)
    × (h.amount_in ≡ pos a)
    × (side.reserve_in ≡ pos r)
    × (side.reserve_out ≡ pos s)
    × (h.amount_out ≡ pos o)
    × (o < s)
    × (r * s ≤ (r + a) * (s - o))

-- The hops lead along the path, each from what the one before it paid out.
abbrev pub Trades : Market → ℤ → List Address → List HopResult → Type 0
Trades m amount [] hops = hops ≡ []
Trades m amount (x ∷ []) hops = hops ≡ []
Trades m amount (x ∷ y ∷ path) [] = ⊥
Trades m amount (x ∷ y ∷ path) (h ∷ hops) =
    (h.token_in ≡ x)
    × (h.token_out ≡ y)
    × (h.amount_in ≡ amount)
    × SafeHop m h
    × Trades m h.amount_out (y ∷ path) hops

hop_forward-SafeHop :
    (m : Market) (fees : FeesInRange m) (amount : ℤ) (x y : Address) (h : HopResult)
    → hop_forward m amount x y ≡ ok h
    → (h.token_in ≡ x) × (h.token_out ≡ y) × (h.amount_in ≡ amount) × SafeHop m h
unfolding hop_forward
hop_forward-SafeHop m fees amount x y h e =
    let r = bind-returned (read_side m x y) _ e in
    let side = r.value in
    let (_, later) = guard-passed _ _ _ r.then_rest in
    let b =
      bind-returned (get_amount_out amount side.reserve_in side.reserve_out side.fee_bps) _ later in
    let sold = get_amount_out-Sold amount _ _ _ (side-IsFee m fees x y side r.first) b.first in
    let same : make_hop x y side amount b.value ≡ h = ok-injective b.then_rest in
    let safe : SafeHop m (make_hop x y side amount b.value) = (
      side, sold.amount_in, sold.reserve_in, sold.reserve_out, sold.out, r.first, sold.amount_in_eq,
      sold.reserve_in_eq, sold.reserve_out_eq, sold.out_eq, sold.out_lt, sold.product,
    ) in
    (
      ap (λ v. v.token_in) (sym same),
      ap (λ v. v.token_out) (sym same),
      ap (λ v. v.amount_in) (sym same),
      subst (SafeHop m) same safe,
    )

-- Where every fee is from 0% to 100% and `computeHops` returns, its hops lead along the path, the first
-- from the amount given and each later one from what the hop before it paid out; every hop pays out
-- less than its pair's output reserve, and the product of that pair's reserves does not fall.
pub compute_hops-Trades :
    (m : Market) (fees : FeesInRange m) (amount : ℤ) (path : List Address) {hops : List HopResult}
    → compute_hops m amount path ≡ ok hops
    → Trades m amount path hops
unfolding compute_hops
compute_hops-Trades m fees amount [] e = sym (ok-injective e)
compute_hops-Trades m fees amount (x ∷ []) e = sym (ok-injective e)
compute_hops-Trades m fees amount (x ∷ y ∷ path) {hops} e =
    let h = bind-returned (hop_forward m amount x y) _ e in
    let t = bind-returned (compute_hops m h.value.amount_out (y ∷ path)) _ h.then_rest in
    let (from, to, paid, safe) = hop_forward-SafeHop m fees amount x y h.value h.first in
    subst (Trades m amount (x ∷ y ∷ path)) (ok-injective t.then_rest)
      (from, to, paid, safe, compute_hops-Trades m fees h.value.amount_out (y ∷ path) t.first)
