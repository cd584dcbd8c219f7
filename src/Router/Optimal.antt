-- ===== src/Router/Optimal.antt =====
-- The path that `findOptimalPath` of src/modules/router.ts chooses, and its cache.
use mathlib.Core.Path.{subst}
use coralswap_sdk.Common.{
  ◌≡◌, inl, inr, refl, sym, ◌∙◌, arith, true, false, Option, none, some, List, [], ◌∷◌, All, Result,
  ok, err, SdkError, Bool-cases, ok-injective, ℤ, ◌≤ℤ◌,
}
use coralswap_sdk.Market.{Address}
use coralswap_sdk.Swap.Quote.{TradeType, exact_in, exact_out, SwapQuote}
use coralswap_sdk.Router.Best.{OptimalPath, apply_slippage_bound, is_better, consider, best_of}

-- `best` is at least as good as `q`: it gives no less, or takes no more.
abbrev pub AtLeast : TradeType → OptimalPath → SwapQuote → Type 0
AtLeast exact_in best q = q.amount_out ≤ℤ best.bound.quote.amount_out
AtLeast exact_out best q = best.bound.quote.amount_in ≤ℤ q.amount_in

-- The quote with its slippage bound, as the best so far.
abbrev bounded : TradeType → ℤ → List Address → SwapQuote → OptimalPath
bounded trade slippage_bps path q = record {
  path = path;
  bound = apply_slippage_bound q trade slippage_bps;
}

AtLeast-bounded :
    (trade : TradeType) (bps : ℤ) (path : List Address) (q : SwapQuote)
    → AtLeast trade (bounded trade bps path q) q
unfolding apply_slippage_bound
AtLeast-bounded exact_in bps path q = omega arith
AtLeast-bounded exact_out bps path q = omega arith

-- A better quote beats what the best so far beats.
AtLeast-better :
    (trade : TradeType) (bps : ℤ) (path : List Address) (q p : SwapQuote) (best : OptimalPath)
    → is_better trade (some best) (apply_slippage_bound q trade bps).quote ≡ true
    → AtLeast trade best p
    → AtLeast trade (bounded trade bps path q) p
unfolding apply_slippage_bound
AtLeast-better exact_in bps path q p best h k = ground arith
AtLeast-better exact_out bps path q p best h k = ground arith

AtLeast-kept :
    (trade : TradeType) (bps : ℤ) (q : SwapQuote) (best : OptimalPath)
    → is_better trade (some best) (apply_slippage_bound q trade bps).quote ≡ false
    → AtLeast trade best q
unfolding apply_slippage_bound
AtLeast-kept exact_in bps q best h = ground arith
AtLeast-kept exact_out bps q best h = ground arith

module _ (trade : TradeType) (slippage_bps : ℤ) (quote : List Address → Result SwapQuote) where
  -- `best` is at least as good as every quote of the path.
  abbrev pub Beats : Option OptimalPath → List Address → Type 0
  Beats none path = (thrown : SdkError) × (quote path ≡ err thrown)
  Beats (some best) path = (q : SwapQuote) → quote path ≡ ok q → AtLeast trade best q

  ok_not_err : {q : SwapQuote} {e : SdkError} (r : Result SwapQuote) → r ≡ ok q → r ≡ err e → ⊥
  ok_not_err r a b = cc

  consider-Beats :
      (best : Option OptimalPath) (path : List Address) (r : Result SwapQuote)
      → quote path ≡ r
      → Beats (consider trade slippage_bps best path r) path
  consider-Beats none path (err thrown) e = (thrown, e)
  consider-Beats (some best) path (err thrown) e =
      λ q known. absurd (ok_not_err (quote path) known e)
  consider-Beats none path (ok q) e = λ p known.
      subst (AtLeast trade (bounded trade slippage_bps path q)) (ok-injective (sym e ∙ known))
        (AtLeast-bounded trade slippage_bps path q)
  consider-Beats (some best) path (ok q) e =
      elim (Bool-cases
        (is_better trade (some best) (apply_slippage_bound q trade slippage_bps).quote)) [
          | inl better ↦ rw better (λ p known.
              subst (AtLeast trade (bounded trade slippage_bps path q))
                (ok-injective (sym e ∙ known)) (AtLeast-bounded trade slippage_bps path q))
          | inr worse ↦ rw worse (λ p known.
              subst (AtLeast trade best) (ok-injective (sym e ∙ known))
                (AtLeast-kept trade slippage_bps q best worse))
        ]

  Beats-consider :
      (best : Option OptimalPath) (path other : List Address) (r : Result SwapQuote)
      → Beats best other
      → Beats (consider trade slippage_bps best path r) other
  Beats-consider best path other (err thrown) b = b
  Beats-consider none path other (ok q) (thrown, e) =
      λ p known. absurd (ok_not_err (quote other) known e)
  Beats-consider (some best) path other (ok q) b =
      elim (Bool-cases
        (is_better trade (some best) (apply_slippage_bound q trade slippage_bps).quote)) [
          | inl better ↦
              rw better
                (λ p known. AtLeast-better trade slippage_bps path q p best better (b p known))
          | inr worse ↦ rw worse b
        ]

  Beats-best_of :
      (best : Option OptimalPath) (paths : List (List Address)) (other : List Address)
      → Beats best other
      → Beats (best_of trade slippage_bps quote best paths) other
  Beats-best_of best [] other b = b
  Beats-best_of best (path ∷ paths) other b =
      Beats-best_of (consider trade slippage_bps best path (quote path)) paths other
        (Beats-consider best path other (quote path) b)

  All-Beats :
      (best : Option OptimalPath) (paths : List (List Address))
      → All (Beats (best_of trade slippage_bps quote best paths)) paths
  All-Beats best [] = tt
  All-Beats best (path ∷ paths) =
      let next = consider trade slippage_bps best path (quote path) in
      (
        Beats-best_of next paths path (consider-Beats best path (quote path) refl),
        All-Beats next paths,
      )

  -- `best` is a path of which `P` holds, with its quote.
  abbrev pub Comes : (List Address → Type 0) → Option OptimalPath → Type 0
  Comes P none = Unit
  Comes P (some best) =
      P best.path
      × ((q : SwapQuote) × (quote best.path ≡ ok q)
          × (best.bound ≡ apply_slippage_bound q trade slippage_bps))

  Comes-consider :
      (P : List Address → Type 0) (best : Option OptimalPath) (path : List Address)
      (r : Result SwapQuote)
      → P path
      → quote path ≡ r
      → Comes P best
      → Comes P (consider trade slippage_bps best path r)
  Comes-consider P best path (err thrown) p e c = c
  Comes-consider P best path (ok q) p e c =
      elim (Bool-cases (is_better trade best (apply_slippage_bound q trade slippage_bps).quote)) [
        | inl better ↦ rw better (p, (q, e, refl))
        | inr worse ↦ rw worse c
      ]

  Comes-best_of :
      (P : List Address → Type 0) (best : Option OptimalPath) (paths : List (List Address))
      → All P paths
      → Comes P best
      → Comes P (best_of trade slippage_bps quote best paths)
  Comes-best_of P best [] all c = c
  Comes-best_of P best (path ∷ paths) (p, all) c =
      Comes-best_of P (consider trade slippage_bps best path (quote path)) paths all
        (Comes-consider P best path (quote path) p refl c)

  -- The path that is chosen has what all paths have, and carries its own quote with the slippage bound; no
  -- path has a quote that gives more, for a given input, or takes less, for a given output. None is chosen
  -- only where every path fails to be quoted.
  pub best_of-Beats :
      (P : List Address → Type 0) (paths : List (List Address))
      → All P paths
      → Comes P (best_of trade slippage_bps quote none paths)
        × All (Beats (best_of trade slippage_bps quote none paths)) paths
  best_of-Beats P paths all = (Comes-best_of P none paths all tt, All-Beats none paths)
