-- ===== src/Clmm/Orca.antt =====
-- quote/clmm.rs: Orca's adaptive fee. Reading the account's bytes is not modelled.
use flow_trades_solana.Base.{ℕ, ◌+◌, ◌-◌, ◌*◌, ◌%◌, ◌^◌, min, max, ltb, if◌then◌else◌}
use flow_trades_solana.Base.Int.{ℤ, abs_diff}
use flow_trades_solana.Clmm.Volatility.{
  volatility_accumulator_scale, max_dynamic_fee_rate, volatility_fee, decayed,
}

pub record OrcaAdaptiveFee : Type 0 where
  pub trade_enable_timestamp : ℕ
  pub filter_period : ℕ
  pub decay_period : ℕ
  pub reduction_factor : ℕ
  pub adaptive_fee_control_factor : ℕ
  pub max_volatility_accumulator : ℕ
  pub tick_group_size : ℕ
  pub last_reference_update_timestamp : ℕ
  pub last_major_swap_timestamp : ℕ
  pub volatility_reference : ℕ
  pub tick_group_index_reference : ℤ
  pub volatility_accumulator : ℕ

abbrev orca_max_reference_age : ℕ
orca_max_reference_age = 3_600

unfoldable pub update_reference : ℤ → ℕ → OrcaAdaptiveFee → OrcaAdaptiveFee
unfolding decayed
update_reference tick_group_index clock f =
    let max_timestamp = max f.last_reference_update_timestamp f.last_major_swap_timestamp in
    let now = max clock max_timestamp in
    let elapsed = now - max_timestamp in
    if ltb orca_max_reference_age (now - f.last_reference_update_timestamp)
    then record f {
      tick_group_index_reference = tick_group_index;
      volatility_reference = 0;
      last_reference_update_timestamp = now;
    }
    else if ltb elapsed f.filter_period
    then f
    else record f {
      tick_group_index_reference = tick_group_index;
      volatility_reference =
          decayed elapsed f.decay_period f.volatility_accumulator f.reduction_factor;
      last_reference_update_timestamp = now;
    }

unfoldable pub update_volatility_accumulator : ℤ → OrcaAdaptiveFee → OrcaAdaptiveFee
update_volatility_accumulator tick_group_index f =
    let v =
      f.volatility_reference
      + abs_diff f.tick_group_index_reference tick_group_index * volatility_accumulator_scale in
    record f { volatility_accumulator = min v f.max_volatility_accumulator % 2 ^ 32 }

unfoldable pub total_fee_rate : OrcaAdaptiveFee → ℕ → ℕ
unfolding volatility_fee
total_fee_rate f static_fee =
    let adaptive =
      volatility_fee f.adaptive_fee_control_factor (f.volatility_accumulator * f.tick_group_size) in
    min (static_fee + min adaptive max_dynamic_fee_rate) max_dynamic_fee_rate
