-- ===== src/Dca/Tests.antt =====
-- A schedule of ten intervals, three of them executed.
use coralswap_sdk.Common.{
  ◌*◌, ◌≡◌, refl, arith, true, none, some, ok, err, validation, codes, has_content, is_space, pos,
  ◌+ℤ◌,
}
use coralswap_sdk.Dca.{
  NativeSchedule, DcaClient, DcaCancellation, DcaParams, running, decode_schedule, get_dca_schedule,
  cancel_dca, cancel_dca_call, create_dca, is_dca_params,
}
use coralswap_sdk.Dca.Refund.{cancel_dca-refund}

abbrev native : NativeSchedule
native = record {
  id = some (codes "s");
  owner = some 1;
  token_in = some 2;
  token_out = some 3;
  amount_per_interval = some (pos 100);
  interval_seconds = some 3600;
  total_intervals = some 10;
  executed_count = some 3;
  next_execution_at = none;
  status = none;
}

abbrev client : DcaClient
client = record {
  is_valid_address = λ a. true;
  get_schedule = λ id. ok (some native);
  get_schedules = λ owner. ok none;
  get_performance = λ id. ok (
      some (record {
        total_invested = some (pos 300);
        total_received = some (pos 110);
        lump_sum_received = some (pos 100);
      }));
  submit_dca = λ call signer. ok (some 77);
}

abbrev done : DcaCancellation
done = record { schedule_id = codes "s"; tx_hash = 77; refund_amount = pos 700 }

cancels : cancel_dca client (codes "s") 1 ≡ ok done
unfolding cancel_dca get_dca_schedule decode_schedule has_content is_space
cancels = refl

cancel_dca-refund_example :
    ((decode_schedule native).status ≡ running)
    × (client.submit_dca (cancel_dca_call (codes "s") 1) 1 ≡ ok (some 77))
    × (pos 700 +ℤ pos (100 * 3) ≡ pos (100 * 10))
cancel_dca-refund_example =
    cancel_dca-refund client (codes "s") 1 done native 100 10 3 cancels refl refl refl refl
      (omega arith)

abbrev params : DcaParams
params = record {
  token_in = 2;
  token_out = 3;
  amount_per_interval = pos 100;
  interval_seconds = 3600;
  total_intervals = 10;
  pair_address = 4;
  slippage_tolerance_bps = none;
}

creates : create_dca client params 1 ≡ ok 77
unfolding create_dca is_dca_params
creates = refl

too_often : create_dca client (record params { interval_seconds = 3599 }) 1 ≡ err validation
unfolding create_dca is_dca_params
too_often = refl
