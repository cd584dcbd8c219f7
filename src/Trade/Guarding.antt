-- ===== src/Trade/Guarding.antt =====
-- What `swapWithPriceGuard` of src/modules/swap.ts lets through.
use coralswap_sdk.Common.{
  ℕ, ◌+◌, ◌<◌, ◌≤◌, ◌≡◌, Bool-cases, ◌⊎◌, inl, inr, refl, sym, false, Bool, Option, none, some,
  or_else, Result, ok, err, ℤ, pos, leb_ℤ, bind-returned, guard-passed, ok-injective,
}
use mathlib.Core.Path.{subst}
use coralswap_sdk.Market.{Market, Client, Double, Address}
use coralswap_sdk.Swap.Quote.{SwapQuote, SwapRequest, resolve_path}
use coralswap_sdk.Submission.Swap.{World, submit_swap_with_idempotent_resubmission}
use coralswap_sdk.PriceGuard.{
  PriceGuardConfig, RedStonePayload, Verdict, guard_skipped, guard_passed, guard_threw,
  verify_redstone_payload, estimate_usd_value,
}
use coralswap_sdk.PriceGuard.Within.{Fair, verify_redstone_payload-Fair}
use coralswap_sdk.Trade.{
  Operation, operation_along, build_swap_operation, Execution, quote_for, execute, executed,
  after_guard, guarded_by, guard_required, with_quote, swap_with_price_guard,
}

-- What `buildSwapOperation` accepts has a positive input and a positive least output, and is what the request
-- and the quote say.
build_swap_operation-returned :
    (client : Client) (to : Option Address) (request : SwapRequest) (quote : SwapQuote)
    {op : Operation}
    → build_swap_operation client to request quote ≡ ok op
    → (leb_ℤ quote.amount_in (pos 0) ≡ false)
      × (leb_ℤ quote.amount_out_min (pos 0) ≡ false)
      × (operation_along
            (resolve_path request)
            request.trade_type
            (or_else to client.public_key)
            request
            quote
          ≡ op)
unfolding build_swap_operation
build_swap_operation-returned client to request quote e =
    let (some_in, rest) = guard-passed (leb_ℤ quote.amount_in (pos 0)) _ _ e in
    let (some_out, built) = guard-passed (leb_ℤ quote.amount_out_min (pos 0)) _ _ rest in
    (some_in, some_out, ok-injective built)

module _ (d : Double) (m : Market) (client : Client) (submit : Operation → World) where
  -- The operation was built from the quote of the execution.
  abbrev pub Executes : (to : Option Address) → SwapRequest → SwapQuote → Execution → Type 0
  Executes to request quote x =
      (x.quote ≡ quote)
      × (x.operation
          ≡ operation_along (resolve_path request) request.trade_type (or_else to client.public_key)
              request quote)
      × (leb_ℤ quote.amount_in (pos 0) ≡ false)
      × (leb_ℤ quote.amount_out_min (pos 0) ≡ false)
      × (x.sent ≡ submit_swap_with_idempotent_resubmission quote (submit x.operation))

  execute-Executes :
      (to : Option Address) (request : SwapRequest) (quote : SwapQuote) (x : Execution)
      → execute d m client submit to request (some quote) ≡ ok x
      → Executes to request quote x
  unfolding execute
  execute-Executes to request quote x e =
      let step = bind-returned (build_swap_operation client to request quote) _ e in
      let (some_in, some_out, built) =
        build_swap_operation-returned client to request quote step.first in
      subst (Executes to request quote) (ok-injective step.then_rest)
        (refl, sym built, some_in, some_out, refl)

  module _ (config : PriceGuardConfig) (symbol_in symbol_out now : ℕ)
      (payload : RedStonePayload) where
    abbrev verdict_on : SwapQuote → Verdict
    verdict_on quote =
        verify_redstone_payload payload symbol_in symbol_out quote.amount_in quote.amount_out config
          now

    abbrev required : SwapQuote → Bool
    required quote =
        guard_required d m client submit
          (estimate_usd_value quote.amount_in symbol_in payload.price_of) config

    -- The quote was below the amount to guard, or had no amount to compare, or was found fair.
    abbrev pub Cleared : SwapQuote → Option Verdict → Type 0
    Cleared quote verdict =
        ((required quote ≡ false) × (verdict ≡ none))
        ⊎ ((verdict ≡ some guard_skipped) × (verdict_on quote ≡ guard_skipped))
        ⊎ ((deviation : ℤ) × (verdict ≡ some (guard_passed deviation))
            × (now ≤ payload.timestamp_ms + config.max_payload_age_ms)
            × ((p : ℤ) × (q : ℤ) × (payload.price_of symbol_in ≡ some p)
                × (payload.price_of symbol_out ≡ some q)
                × Fair config.max_deviation_bps quote.amount_in quote.amount_out p q))

    guarded-inv :
        (verdict v : Option Verdict) (r : Result Execution) (x : Execution)
        → guarded_by d m client submit verdict r ≡ executed x v
        → (r ≡ ok x) × (verdict ≡ v)
    guarded-inv verdict v (ok y) x e = (cc, cc)
    guarded-inv verdict v (err thrown) x e = cc

    judged-Cleared :
        (quote : SwapQuote) (verdict : Verdict) (v : Option Verdict) (r : Result Execution)
        (x : Execution)
        → config.max_deviation_bps < 10000
        → verdict_on quote ≡ verdict
        → after_guard d m client submit (some verdict) r ≡ executed x v
        → (r ≡ ok x) × Cleared quote v
    judged-Cleared quote guard_skipped v r x small said e =
        let (ran, same) = guarded-inv (some guard_skipped) v r x e in
        (ran, inr (inl (sym same, said)))
    judged-Cleared quote (guard_passed deviation) v r x small said e =
        let (ran, same) = guarded-inv (some (guard_passed deviation)) v r x e in
        let (young, fair) =
          verify_redstone_payload-Fair payload symbol_in symbol_out quote.amount_in quote.amount_out
            config now deviation small said in
        (ran, inr (inr (deviation, sym same, young, fair)))
    judged-Cleared quote (guard_threw thrown) v r x small said e = cc

    quoted-Cleared :
        (to : Option Address) (request : SwapRequest) (quote : SwapQuote) (v : Option Verdict)
        (x : Execution)
        → config.max_deviation_bps < 10000
        → with_quote d m client submit config symbol_in symbol_out now
            (some payload)
            to
            request
            (ok quote)
          ≡ executed x v
        → Executes to request quote x × Cleared quote v
    quoted-Cleared to request quote v x small e = elim (Bool-cases (required quote)) [
      | inl needed ↦
          let (ran, cleared) =
            judged-Cleared quote (verdict_on quote) v
              (execute d m client submit to request (some quote)) x small refl (rw needed at e) in
          (execute-Executes to request quote x ran, cleared)
      | inr below ↦
          let (ran, same) =
            guarded-inv none v (execute d m client submit to request (some quote)) x
              (rw below at e) in
          (execute-Executes to request quote x ran, inl (below, sym same))
    ]

    -- Where `swapWithPriceGuard` has a payload, and its bound is below 10000 basis points, whatever it submits
    -- was built from one quote, given or read, with a positive input and a positive least output; that
    -- quote is worth less than the amount to guard, or the guard skipped it, or the guard passed it, and
    -- then its value out is within the bound and two basis points of its value in.
    pub swap_with_price_guard-Cleared :
        (to : Option Address) (request : SwapRequest) (given : Option SwapQuote)
        (v : Option Verdict) (x : Execution)
        → config.max_deviation_bps < 10000
        → swap_with_price_guard d m client submit config symbol_in symbol_out now
            (some payload)
            to
            request
            given
          ≡ executed x v
        → (quote : SwapQuote) × (quote_for d m client request given ≡ ok quote)
          × Executes to request quote x
          × Cleared quote v
    unfolding swap_with_price_guard
    swap_with_price_guard-Cleared to request given v x small e =
        from_quote (quote_for d m client request given) refl e
      where
        from_quote :
            (r : Result SwapQuote)
            → quote_for d m client request given ≡ r
            → with_quote d m client submit config symbol_in symbol_out now
                (some payload)
                to
                request
                r
              ≡ executed x v
            → (quote : SwapQuote) × (quote_for d m client request given ≡ ok quote)
              × Executes to request quote x
              × Cleared quote v
        from_quote (ok quote) q h =
            let (runs, cleared) = quoted-Cleared to request quote v x small h in
            (quote, q, runs, cleared)
        from_quote (err thrown) q h = cc
