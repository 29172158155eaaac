-- ===== src/Fetcher/Fees.antt =====
-- quote/clmm.rs, quote/damm_v2.rs, quote/dlmm.rs: the parsers of what a pool's account says of its fee. The words of
-- the pair's bitmap and the fields that the quotes do not read are left out.
pub mod Laws
use flow_trades_solana.Base.{
  ℕ, ◌+◌, Bool, true, false, not, ◌||◌, Option, none, some, List, [], ◌∷◌, ltb, leb, ◌==◌,
  if◌then◌else◌, length,
}
use flow_trades_solana.Base.Int.{ℤ, pos, negsuc}
use flow_trades_solana.Base.Bytes.{signed}
use flow_trades_solana.Clmm.Raydium.{RaydiumDynamicFee, RaydiumFeeExt}
use flow_trades_solana.DammV2.Fees.{DammFees}
use flow_trades_solana.Dlmm.Pair.{DlmmPair}
use flow_trades_solana.Execution.{ok}
use flow_trades_solana.Fetcher.Reading.{
  Parsed, ◌>>=◌, ◌>>◌, reject_if, number, number_i32, number_or, bytes_at, any_nonzero,
}

-- `RaydiumFeeExt::parse`.
parse_dynamic_fee : List ℕ → Parsed RaydiumDynamicFee
parse_dynamic_fee d = do
  filter_period ← number d 1_096 2
  decay_period ← number d 1_098 2
  reduction_factor ← number d 1_100 2
  dynamic_fee_control ← number d 1_102 4
  max_volatility_accumulator ← number d 1_106 4
  tick_spacing_index_reference ← number_i32 d 1_110
  volatility_reference ← number d 1_114 4
  volatility_accumulator ← number d 1_118 4
  last_update_timestamp ← number d 1_122 8
  ok (record {
    filter_period = filter_period;
    decay_period = decay_period;
    reduction_factor = reduction_factor;
    dynamic_fee_control = dynamic_fee_control;
    max_volatility_accumulator = max_volatility_accumulator;
    tick_spacing_index_reference = tick_spacing_index_reference;
    volatility_reference = volatility_reference;
    volatility_accumulator = volatility_accumulator;
    last_update_timestamp = last_update_timestamp;
  })

parse_long_ext : List ℕ → Parsed RaydiumFeeExt
parse_long_ext d = do
  dynamic ← bytes_at d 1_096 80
  fee_on ← number d 390 1
  f ← parse_dynamic_fee d
  ok (record { fee_on = fee_on; dynamic_fee = if any_nonzero dynamic then some f else none })

pub parse_raydium_fee_ext : List ℕ → Parsed RaydiumFeeExt
parse_raydium_fee_ext d =
    if ltb (length d) 1_176
    then ok (record { fee_on = 0; dynamic_fee = none })
    else parse_long_ext d

-- `DammFees::parse`, and its default.
pub parse_damm_fees : List ℕ → Parsed DammFees
parse_damm_fees d = do
  reject_if (ltb (length d) 168)
  cliff_fee_numerator ← number d 8 8
  fee_scheduler_mode ← number d 16 1
  number_of_period ← number d 22 2
  period_frequency ← number d 24 8
  reduction_factor ← number d 32 8
  dynamic ← number d 56 1
  variable_fee_control ← number d 68 4
  bin_step ← number d 72 2
  volatility_accumulator ← number d 120 16
  init_sqrt_price ← number d 152 16
  ok (record {
    dynamic_fee_initialized = not (dynamic == 0);
    fee_version = number_or 0 d 486 1;
    cliff_fee_numerator = cliff_fee_numerator;
    fee_scheduler_mode = fee_scheduler_mode;
    number_of_period = number_of_period;
    period_frequency = period_frequency;
    reduction_factor = reduction_factor;
    variable_fee_control = variable_fee_control;
    bin_step = bin_step;
    volatility_accumulator = volatility_accumulator;
    init_sqrt_price = init_sqrt_price;
  })

abbrev pub no_damm_fees : DammFees
no_damm_fees = record {
  dynamic_fee_initialized = false;
  fee_version = 0;
  cliff_fee_numerator = 0;
  fee_scheduler_mode = 0;
  number_of_period = 0;
  period_frequency = 0;
  reduction_factor = 0;
  variable_fee_control = 0;
  bin_step = 0;
  volatility_accumulator = 0;
  init_sqrt_price = 0;
}

-- `DlmmPair::parse`, and its default.
pub parse_dlmm_pair : List ℕ → Parsed DlmmPair
parse_dlmm_pair d = do
  reject_if (ltb (length d) 904)
  base_factor ← number d 8 2
  filter_period ← number d 10 2
  decay_period ← number d 12 2
  reduction_factor ← number d 14 2
  variable_fee_control ← number d 16 4
  max_volatility_accumulator ← number d 20 4
  base_fee_power_factor ← number d 34 1
  function_type ← number d 35 1
  collect_fee_mode ← number d 36 1
  volatility_accumulator ← number d 40 4
  volatility_reference ← number d 44 4
  index_reference ← number_i32 d 48
  last_update ← number d 56 8
  pair_type ← number d 75 1
  active_id ← number_i32 d 76
  bin_step ← number d 80 2
  status ← number d 82 1
  activation_type ← number d 86 1
  activation_point ← number d 816 8
  reward_0 ← bytes_at d 264 32
  reward_1 ← bytes_at d 408 32
  ok (record {
    last_update_timestamp = signed 64 last_update;
    has_rewards = any_nonzero reward_0 || any_nonzero reward_1;
    base_factor = base_factor;
    filter_period = filter_period;
    decay_period = decay_period;
    reduction_factor = reduction_factor;
    variable_fee_control = variable_fee_control;
    max_volatility_accumulator = max_volatility_accumulator;
    base_fee_power_factor = base_fee_power_factor;
    function_type = function_type;
    collect_fee_mode = collect_fee_mode;
    volatility_accumulator = volatility_accumulator;
    volatility_reference = volatility_reference;
    index_reference = index_reference;
    pair_type = pair_type;
    active_id = active_id;
    bin_step = bin_step;
    status = status;
    activation_type = activation_type;
    activation_point = activation_point;
  })

abbrev pub no_dlmm_pair : DlmmPair
no_dlmm_pair = record {
  last_update_timestamp = pos 0;
  index_reference = pos 0;
  active_id = pos 0;
  has_rewards = false;
  base_factor = 0;
  filter_period = 0;
  decay_period = 0;
  reduction_factor = 0;
  variable_fee_control = 0;
  max_volatility_accumulator = 0;
  base_fee_power_factor = 0;
  function_type = 0;
  collect_fee_mode = 0;
  volatility_accumulator = 0;
  volatility_reference = 0;
  pair_type = 0;
  bin_step = 0;
  status = 0;
  activation_type = 0;
  activation_point = 0;
}
