-- ===== src/Trade/MultiHop.antt =====
-- What `executeMultiHop` of src/modules/swap.ts submits for an exact output.
use mathlib.Core.Path.{subst}
use coralswap_sdk.Common.{
  ◌≡◌, sym, ap, ◌∙◌, or_else, List, ok, ℤ, not, validation, throw_if, bind-returned, ok-injective,
}
use coralswap_sdk.Market.{Market, Client, Double}
use coralswap_sdk.Swap.Hops.{HopResult, compute_hops_reverse}
use coralswap_sdk.Swap.Quote.{exact_out, SwapQuote, resolve_slippage_bps, plus_slippage}
use coralswap_sdk.Swap.MultiHop.{
  MultiHopSwapRequest, is_multi_hop_request, hops_for, ends, get_multi_hop_quote, quoted_in,
  quoted_out_min,
}
use coralswap_sdk.Submission.Swap.{World}
use coralswap_sdk.Trade.{
  Operation, swap_exact_tokens_for_tokens, Execution, multi_hop_operation, execute_multi_hop,
}

module _ (d : Double) (m : Market) (client : Client) (submit : Operation → World) where
  -- For an exact output, the input that the hops require, with the slippage added, is submitted as the exact
  -- input of the swap, and the output asked for as its least output: the whole of the padded input is
  -- spent, not only what the output requires.
  pub execute_multi_hop-exact_out :
      (request : MultiHopSwapRequest) (x : Execution)
      → request.trade_type ≡ exact_out
      → execute_multi_hop d m client submit request ≡ ok x
      → (hops : List HopResult) × (required : ℤ) × (output : ℤ) × (slippage : ℤ)
        × (compute_hops_reverse m request.amount request.path ≡ ok hops)
        × (ends hops ≡ ok (required, output))
        × (resolve_slippage_bps client request.slippage_bps ≡ ok slippage)
        × (x.operation
            ≡ swap_exact_tokens_for_tokens
                (or_else request.to client.public_key)
                request.path
                (plus_slippage required slippage)
                output
                (or_else request.deadline client.get_deadline))
  unfolding execute_multi_hop get_multi_hop_quote
  execute_multi_hop-exact_out request x kind e =
      let quoted = bind-returned (get_multi_hop_quote d m client request) _ e in
      let checked =
        bind-returned (throw_if (not (is_multi_hop_request client request)) validation) _
          quoted.first in
      let found =
        bind-returned (hops_for m request.trade_type request.amount request.path) _
          checked.then_rest in
      let ended = bind-returned (ends found.value) _ found.then_rest in
      let tolerated =
        bind-returned (resolve_slippage_bps client request.slippage_bps) _ ended.then_rest in
      (
        found.value,
        ended.value.0,
        ended.value.1,
        tolerated.value,
        subst (λ k. hops_for m k request.amount request.path ≡ ok found.value) kind found.first,
        ended.first,
        tolerated.first,
        ap (λ (y : Execution). y.operation) (sym (ok-injective quoted.then_rest))
            ∙ ap
                (λ (q : SwapQuote × List HopResult).
                  multi_hop_operation d m client submit request q.0)
                (sym (ok-injective tolerated.then_rest))
            ∙ ap
                (λ k.
                  swap_exact_tokens_for_tokens (or_else request.to client.public_key) request.path
                    (quoted_in k ended.value.0 tolerated.value)
                    (quoted_out_min k ended.value.1 tolerated.value)
                    (or_else request.deadline client.get_deadline))
                kind,
      )
