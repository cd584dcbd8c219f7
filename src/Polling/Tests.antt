-- ===== src/Polling/Tests.antt =====
-- A transaction that is seen at the third attempt, and an RPC that is down.
use coralswap_sdk.Common.{ℕ, suc, ◌≡◌, refl, false, some, none, [], ◌∷◌}
use coralswap_sdk.Submission.{Response, answered_success, answered_not_found, threw}
use coralswap_sdk.Polling.{
  exponential, PollingOptions, World, confirmed, tx_timeout, poll, poll_from,
}
use coralswap_sdk.Polling.Endings.{Explained, poll-Explained}

abbrev options : PollingOptions
options = record {
  strategy = some exponential;
  interval = none;
  max_attempts = some 5;
  backoff_factor = none;
  max_interval = some 1500;
}

abbrev answers : ℕ → Response
answers (suc (suc (suc i))) = answered_success (some 9)
answers i = answered_not_found

abbrev calm : World
calm = record {
  answer = answers;
  aborted_before = λ i. false;
  aborted_after_error = λ i. false;
  aborted_in_delay = λ i. false;
}

seen_third :
    poll options calm ≡ record { ending = confirmed 9; polls = 3; delays = 1000 ∷ 1500 ∷ [] }
unfolding poll poll_from
seen_third = refl

down : (poll options (record calm { answer = λ i. threw })).ending ≡ tx_timeout
unfolding poll poll_from
down = refl

poll-Explained_example : let r = poll options calm in Explained options calm 5 1 r.ending r.polls
poll-Explained_example = poll-Explained options calm
