-- ===== src/Dca.antt =====
-- DCAModule of src/modules/dca.ts: the checks of a new schedule, the schedule as it is read, its refund and its
-- performance. What the contract answers is a parameter; counts and times are whole numbers.
pub mod Refund
mod Tests
use coralswap_sdk.Common.{
  ℕ, ◌+◌, ◌-◌, Bool, true, false, not, ◌&&◌, Option, none, some, or_else, List, [], ◌∷◌, map,
  Result, ok, err, validation, transaction, throw_if, ◌>>=◌, ◌>>◌, Text, has_content, ltb, leb,
  ◌==◌, if◌then◌else◌, ℤ, pos, ltb_ℤ, ◌-ℤ◌, ◌*ℤ◌, quot, is_zero,
}
use coralswap_sdk.Market.{Address}

pub data DcaStatus : Type 0 where
  running completed cancelled_schedule : DcaStatus

pub record DcaParams : Type 0 where
  pub token_in : Address
  pub token_out : Address
  pub amount_per_interval : ℤ
  pub interval_seconds : ℕ
  pub total_intervals : ℕ
  pub pair_address : Address
  pub slippage_tolerance_bps : Option ℕ

-- What `scValToNative` makes of a schedule.
pub record NativeSchedule : Type 0 where
  pub id : Option Text
  pub owner : Option Address
  pub token_in : Option Address
  pub token_out : Option Address
  pub amount_per_interval : Option ℤ
  pub interval_seconds : Option ℕ
  pub total_intervals : Option ℕ
  pub executed_count : Option ℕ
  pub next_execution_at : Option ℕ
  pub status : Option DcaStatus

-- No address is the empty string.
pub record DcaSchedule : Type 0 where
  pub id : Text
  pub owner : Option Address
  pub token_in : Option Address
  pub token_out : Option Address
  pub amount_per_interval : ℤ
  pub interval_seconds : ℕ
  pub total_intervals : ℕ
  pub executed_count : ℕ
  pub remaining_count : ℕ
  pub next_execution_at : ℕ
  pub status : DcaStatus

pub record NativePerformance : Type 0 where
  pub total_invested : Option ℤ
  pub total_received : Option ℤ
  pub lump_sum_received : Option ℤ

pub record DcaPerformance : Type 0 where
  pub schedule_id : Text
  pub total_invested : ℤ
  pub total_received : ℤ
  pub lump_sum_received : ℤ
  pub savings : ℤ
  pub savings_bps : ℤ

pub record DcaCancellation : Type 0 where
  pub schedule_id : Text
  pub tx_hash : ℕ
  pub refund_amount : ℤ

-- The calls `create_dca` and `cancel_dca` of the contract.
pub data DcaCall : Type 0 where
  create_dca_call : DcaParams → (slippage_bps : ℕ) → (signer : Address) → DcaCall
  cancel_dca_call : (schedule_id : Text) → (signer : Address) → DcaCall

-- The address check, the simulations (a value where one succeeded and returned one, for `get_schedules` a
-- vector), and `submitTransaction`, which gives a hash where it succeeded.
pub record DcaClient : Type 0 where
  pub is_valid_address : Address → Bool
  pub get_schedule : Text → Result (Option NativeSchedule)
  pub get_schedules : Address → Result (Option (List NativeSchedule))
  pub get_performance : Text → Result (Option NativePerformance)
  pub submit_dca : DcaCall → (signer : Address) → Result (Option ℕ)

abbrev pub max_slippage_tolerance_bps : ℕ
max_slippage_tolerance_bps = 5000

abbrev pub is_slippage_tolerance : ℕ → Bool
is_slippage_tolerance bps = leb 1 bps && leb bps max_slippage_tolerance_bps

-- `DCAParamsSchema`
unfoldable pub is_dca_params : DcaClient → DcaParams → Bool
is_dca_params c params =
    c.is_valid_address params.token_in
    && c.is_valid_address params.token_out
    && leb 3600 params.interval_seconds
    && leb 2 params.total_intervals
    && c.is_valid_address params.pair_address
    && is_slippage_tolerance (or_else params.slippage_tolerance_bps 100)
    && not (params.token_in == params.token_out)
    && ltb_ℤ (pos 0) params.amount_per_interval

abbrev pub submitted_hash : Option ℕ → Result ℕ
submitted_hash none = err transaction
submitted_hash (some tx_hash) = ok tx_hash

unfoldable pub create_dca : DcaClient → DcaParams → (signer : Address) → Result ℕ
create_dca c params signer =
    throw_if (not (is_dca_params c params)) validation
    >> c.submit_dca (create_dca_call params (or_else params.slippage_tolerance_bps 100) signer)
        signer
    >>= submitted_hash

unfoldable pub decode_schedule : NativeSchedule → DcaSchedule
decode_schedule native = record {
  id = or_else native.id [];
  owner = native.owner;
  token_in = native.token_in;
  token_out = native.token_out;
  amount_per_interval = or_else native.amount_per_interval (pos 0);
  interval_seconds = or_else native.interval_seconds 0;
  total_intervals = or_else native.total_intervals 0;
  executed_count = or_else native.executed_count 0;
  remaining_count = or_else native.total_intervals 0 - or_else native.executed_count 0;
  next_execution_at = or_else native.next_execution_at 0;
  status = or_else native.status running;
}

abbrev pub decoded_schedule : Option NativeSchedule → Result DcaSchedule
decoded_schedule none = err validation
decoded_schedule (some native) = ok (decode_schedule native)

unfoldable pub get_dca_schedule : DcaClient → (schedule_id : Text) → Result DcaSchedule
get_dca_schedule c schedule_id =
    throw_if (not (has_content schedule_id)) validation
    >> c.get_schedule schedule_id
    >>= decoded_schedule

abbrev pub decoded_schedules : Option (List NativeSchedule) → List DcaSchedule
decoded_schedules none = []
decoded_schedules (some natives) = map decode_schedule natives

unfoldable pub get_dca_schedules : DcaClient → (owner : Address) → Result (List DcaSchedule)
get_dca_schedules c owner =
    throw_if (not (c.is_valid_address owner)) validation >> c.get_schedules owner >>= λ natives.
    ok (decoded_schedules natives)

abbrev pub check_running : DcaStatus → Result (Unit {0})
check_running running = ok tt
check_running completed = err validation
check_running cancelled_schedule = err validation

abbrev pub refund : DcaSchedule → ℤ
refund schedule = schedule.amount_per_interval *ℤ pos schedule.remaining_count

unfoldable pub cancel_dca :
    DcaClient → (schedule_id : Text) → (signer : Address) → Result DcaCancellation
cancel_dca c schedule_id signer =
    throw_if (not (has_content schedule_id)) validation
    >> get_dca_schedule c schedule_id
    >>= λ schedule.
        check_running schedule.status
        >> (c.submit_dca (cancel_dca_call schedule_id signer) signer >>= submitted_hash)
        >>= λ tx_hash. ok (record {
          schedule_id = schedule_id;
          tx_hash = tx_hash;
          refund_amount = refund schedule;
        })

abbrev pub savings_bps_of : (savings lump_sum_received : ℤ) → ℤ
savings_bps_of savings lump_sum_received =
    if is_zero lump_sum_received then pos 0 else quot (savings *ℤ pos 10_000) lump_sum_received

abbrev pub performance_of : (schedule_id : Text) → Option NativePerformance → Result DcaPerformance
performance_of schedule_id none = err validation
performance_of schedule_id (some native) =
    let received = or_else native.total_received (pos 0) in
    let lump_sum = or_else native.lump_sum_received (pos 0) in
    ok (record {
      schedule_id = schedule_id;
      total_invested = or_else native.total_invested (pos 0);
      total_received = received;
      lump_sum_received = lump_sum;
      savings = received -ℤ lump_sum;
      savings_bps = savings_bps_of (received -ℤ lump_sum) lump_sum;
    })

unfoldable pub get_dca_performance : DcaClient → (schedule_id : Text) → Result DcaPerformance
get_dca_performance c schedule_id =
    throw_if (not (has_content schedule_id)) validation
    >> c.get_performance schedule_id
    >>= performance_of schedule_id
