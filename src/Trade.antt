-- ===== src/Trade.antt =====
-- How src/modules/swap.ts executes a quote: buildSwapOperation, execute, executeMultiHop and
-- swapWithPriceGuard. The fields of a request that only these read are arguments of their own.
pub mod Guarding
pub mod MultiHop
mod Tests
use coralswap_sdk.Common.{
  ℕ, ltb, if◌then◌else◌, Bool, true, false, Option, none, some, or_else, List, [], ◌∷◌, length,
  Result, ◌>>=◌, ◌>>◌, throw_if, catch, ok, err, validation, SdkError, ℤ, pos, leb_ℤ,
}
use coralswap_sdk.Market.{Market, Client, Double, Address}
use coralswap_sdk.Swap.Quote.{TradeType, exact_in, exact_out, SwapQuote, SwapRequest, resolve_path}
use coralswap_sdk.Swap.MultiHop.{get_quote, MultiHopSwapRequest, get_multi_hop_quote}
use coralswap_sdk.Submission.Swap.{Submitted, World, Sent, submit_swap_with_idempotent_resubmission}
use coralswap_sdk.PriceGuard.{
  PriceGuardConfig, RedStonePayload, Verdict, guard_skipped, guard_passed, guard_threw, GuardError,
  verify_redstone_payload, estimate_usd_value,
}

-- The calls of the router contract that `buildSwapExactIn` and its kin encode.
pub data Operation : Type 0 where
  swap_exact_in :
      (to token_in token_out : Address) (amount_in amount_out_min : ℤ) (deadline : ℕ) → Operation
  swap_exact_out :
      (to token_in token_out : Address) (amount_out amount_in_max : ℤ) (deadline : ℕ) → Operation
  swap_exact_tokens_for_tokens :
      (to : Address) (path : List Address) (amount_in amount_out_min : ℤ) (deadline : ℕ) → Operation

abbrev pub operation_along :
    List Address → TradeType → (to : Address) → SwapRequest → SwapQuote → Operation
operation_along path kind to request quote =
    if ltb 2 (length path)
    then swap_exact_tokens_for_tokens to path quote.amount_in quote.amount_out_min quote.deadline
    else elim kind [
      | exact_in ↦
          swap_exact_in to request.token_in request.token_out quote.amount_in quote.amount_out_min
            quote.deadline
      | exact_out ↦
          swap_exact_out to request.token_in request.token_out quote.amount_out quote.amount_in
            quote.deadline
    ]

-- `to` is the recipient of the request, if it names one.
unfoldable pub build_swap_operation :
    Client → (to : Option Address) → SwapRequest → SwapQuote → Result Operation
build_swap_operation client to request quote =
    throw_if (leb_ℤ quote.amount_in (pos 0)) validation
    >> (throw_if (leb_ℤ quote.amount_out_min (pos 0)) validation
        >> ok (
            operation_along (resolve_path request) request.trade_type (or_else to client.public_key)
              request quote))

-- What a call sent to the chain: the operation, its quote, and how the submission went.
pub record Execution : Type 0 where
  pub operation : Operation
  pub quote : SwapQuote
  pub sent : Sent

-- `submit op` is the world in which the operation is submitted.
abbrev pub send : SwapQuote → Operation → (Operation → World) → Execution
send quote operation submit = record {
  operation = operation;
  quote = quote;
  sent = submit_swap_with_idempotent_resubmission quote (submit operation);
}

abbrev pub quote_for : Double → Market → Client → SwapRequest → Option SwapQuote → Result SwapQuote
quote_for d m client request none = get_quote d m client request
quote_for d m client request (some quote) = ok quote

module _ (d : Double) (m : Market) (client : Client) (submit : Operation → World) where
  unfoldable pub execute : (to : Option Address) → SwapRequest → Option SwapQuote → Result Execution
  execute to request given = do
    quote ← quote_for d m client request given
    operation ← build_swap_operation client to request quote
    ok (send quote operation submit)

  abbrev pub multi_hop_operation : MultiHopSwapRequest → SwapQuote → Operation
  multi_hop_operation request quote =
      swap_exact_tokens_for_tokens (or_else request.to client.public_key) quote.path quote.amount_in
        quote.amount_out_min quote.deadline

  unfoldable pub execute_multi_hop : MultiHopSwapRequest → Result Execution
  execute_multi_hop request = do
    quoted ← get_multi_hop_quote d m client request
    ok (send quoted.0 (multi_hop_operation request quoted.0) submit)

  -- How `swapWithPriceGuard` ends: an exception of the SDK, one of the guard, or an execution with what the
  -- guard said, if it ran.
  pub data Guarded : Type 0 where
    threw : SdkError → Guarded
    refused : GuardError → Guarded
    executed : Execution → Option Verdict → Guarded

  abbrev pub guarded_by : Option Verdict → Result Execution → Guarded
  guarded_by verdict (ok execution) = executed execution verdict
  guarded_by verdict (err thrown) = threw thrown

  -- The rest of the call, once the guard has spoken.
  abbrev pub after_guard : Option Verdict → Result Execution → Guarded
  after_guard none execution = guarded_by none execution
  after_guard (some guard_skipped) execution = guarded_by (some guard_skipped) execution
  after_guard (some (guard_passed deviation)) execution =
      guarded_by (some (guard_passed deviation)) execution
  after_guard (some (guard_threw thrown)) execution = refused thrown

  -- `usdValue === null || usdValue >= minGuardedAmountUsd`
  abbrev pub guard_required : Option ℤ → PriceGuardConfig → Bool
  guard_required none config = true
  guard_required (some usd) config = leb_ℤ config.min_guarded_amount_usd usd

  module _ (config : PriceGuardConfig) (symbol_in symbol_out now : ℕ) where
    abbrev pub guard_of : Option RedStonePayload → SwapQuote → Option Verdict
    guard_of none quote = none
    guard_of (some payload) quote =
        if guard_required (estimate_usd_value quote.amount_in symbol_in payload.price_of) config
        then some (
            verify_redstone_payload payload symbol_in symbol_out quote.amount_in quote.amount_out
              config now)
        else none

    abbrev pub with_quote :
        Option RedStonePayload → (to : Option Address) → SwapRequest → Result SwapQuote → Guarded
    with_quote payload to request (err thrown) = threw thrown
    with_quote payload to request (ok quote) =
        after_guard (guard_of payload quote) (execute to request (some quote))

    unfoldable pub swap_with_price_guard :
        Option RedStonePayload → (to : Option Address) → SwapRequest → Option SwapQuote → Guarded
    swap_with_price_guard payload to request given =
        with_quote payload to request (quote_for d m client request given)
