-- ===== src/DammV2/Fees/Tests.antt =====
-- quote/damm_v2.rs: a linear fee scheduler after three periods.
use flow_trades_solana.Base.{◌+◌, ◌≤◌, ◌≡◌, refl, true, false, some, inr}
use flow_trades_solana.DammV2.Fees.{
  DammFees, max_fee_numerator, scheduled_fee, time_period, base_fee_numerator,
  variable_fee_numerator, total_fee_numerator, rate_limiter_applies,
}
use flow_trades_solana.DammV2.Fees.Laws.{total_fee_numerator_scheduled}

abbrev fees : DammFees
fees = record {
  cliff_fee_numerator = 10_000_000;
  fee_scheduler_mode = 0;
  number_of_period = 10;
  period_frequency = 100;
  reduction_factor = 500_000;
  dynamic_fee_initialized = false;
  variable_fee_control = 0;
  bin_step = 0;
  volatility_accumulator = 0;
  init_sqrt_price = 0;
  fee_version = 0;
}

after_three : total_fee_numerator fees 350 0 true 1_000 1 ≡ some 8_500_000
unfolding total_fee_numerator base_fee_numerator time_period scheduled_fee variable_fee_numerator
    max_fee_numerator
after_three = refl

total_fee_numerator_scheduled_example : 8_500_000 ≤ 10_000_000 + 0
unfolding rate_limiter_applies variable_fee_numerator
total_fee_numerator_scheduled_example =
    total_fee_numerator_scheduled fees 350 0 true 1_000 1 {v = 0} (inr refl) refl after_three
