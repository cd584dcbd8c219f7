-- ===== src/Submission/Tests.antt =====
-- Submissions that get lost, and the theorems there.
use coralswap_sdk.Common.{
  ℕ, zero, suc, ◌+◌, ◌≤◌, ◌<◌, ◌≡◌, refl, true, some, [], ◌∷◌, if◌then◌else◌, ltb, pos, ok,
}
use coralswap_sdk.Swap.Quote.{SwapQuote}
use coralswap_sdk.Submission.{
  Response, answered_success, answered_failed, answered_not_found, get_transaction_status,
  should_retry_submission,
}
use coralswap_sdk.Submission.Swap.{
  lost, World, to_swap_result, max_retries, submit_from, submit_swap_with_idempotent_resubmission,
}
use coralswap_sdk.Submission.SwapOnce.{Unseen, Settled, submit_swap-Settled}
use coralswap_sdk.Submission.Rebuild.{gives, throws, seen, next, poll_until_final}
use coralswap_sdk.Submission.RebuildOnce.{Explained, submit_from-Explained}
use coralswap_sdk.Submission.Rebuild

abbrev quote : SwapQuote
quote = record {
  token_in = 1;
  token_out = 2;
  amount_in = pos 5000;
  amount_out = pos 9920;
  amount_out_min = pos 9871;
  price_impact_bps = pos 80;
  fee_bps = pos 30;
  fee_amount = pos 15;
  path = 1 ∷ 2 ∷ [];
  deadline = 1200;
}

abbrev late : ℕ → Response
late zero = answered_not_found
late (suc i) = answered_success (some 77)

-- The first submission never lands; the second times out, but is in ledger 77.
abbrev world : World
world = record { now = 9; submit = λ i. lost (some (100 + i)); lookup = late }

sent :
    submit_swap_with_idempotent_resubmission quote world
    ≡ record { outcome = ok (to_swap_result quote 101 77 9); submissions = 2 }
unfolding submit_swap_with_idempotent_resubmission submit_from get_transaction_status
    should_retry_submission
sent = refl

submit_swap-Settled_example :
    let t = submit_swap_with_idempotent_resubmission quote world in
    (last : ℕ) × (t.submissions ≡ suc last)
    × (last ≤ max_retries)
    × ((i : ℕ) → i < last → Unseen quote world i)
    × Settled quote world max_retries 0 last t.outcome
submit_swap-Settled_example = submit_swap-Settled quote world

-- Every submission is accepted, every first poll times out, and the third is seen.
abbrev shaky : Rebuild.World
shaky = record {
  submit = λ i. gives tt;
  poll = λ i k. throws true;
  lookup = λ i. gives (if ltb i 2 then answered_not_found else answered_failed (some 8));
}

submit_from-Explained_example :
    let t = Rebuild.submit_from shaky 3 0 in Explained shaky 3 0 t.ending t.submissions
submit_from-Explained_example = submit_from-Explained shaky 3 0
