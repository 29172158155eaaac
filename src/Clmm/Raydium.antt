-- ===== src/Clmm/Raydium.antt =====
-- quote/clmm.rs: Raydium's fee side and dynamic fee. Reading the account's bytes is not modelled.
use flow_trades_solana.Base.{
  ℕ, ◌+◌, ◌-◌, ◌*◌, ◌%◌, ◌^◌, min, Bool, true, not, Option, ltb, ◌==◌, if◌then◌else◌,
}
use flow_trades_solana.Base.Int.{ℤ, abs_diff}
use flow_trades_solana.Clmm.Volatility.{
  volatility_accumulator_scale, max_dynamic_fee_rate, volatility_fee, decayed,
}

pub record RaydiumDynamicFee : Type 0 where
  pub filter_period : ℕ
  pub decay_period : ℕ
  pub reduction_factor : ℕ
  pub dynamic_fee_control : ℕ
  pub max_volatility_accumulator : ℕ
  pub tick_spacing_index_reference : ℤ
  pub volatility_reference : ℕ
  pub volatility_accumulator : ℕ
  pub last_update_timestamp : ℕ

pub record RaydiumFeeExt : Type 0 where
  pub fee_on : ℕ
  pub dynamic_fee : Option RaydiumDynamicFee

unfoldable pub fee_on_input : RaydiumFeeExt → Bool → Bool
fee_on_input e zero_for_one =
    if e.fee_on == 1 then zero_for_one else if e.fee_on == 2 then not zero_for_one else true

unfoldable pub update_reference : ℤ → ℕ → RaydiumDynamicFee → RaydiumDynamicFee
unfolding decayed
update_reference tick_spacing_index now f =
    let elapsed = now - f.last_update_timestamp in
    if ltb elapsed f.filter_period then f else record f {
      tick_spacing_index_reference = tick_spacing_index;
      volatility_reference =
          decayed elapsed f.decay_period f.volatility_accumulator f.reduction_factor;
      last_update_timestamp = now;
    }

unfoldable pub update_volatility_accumulator : ℤ → RaydiumDynamicFee → RaydiumDynamicFee
update_volatility_accumulator tick_spacing_index f =
    let v =
      f.volatility_reference
      + abs_diff f.tick_spacing_index_reference tick_spacing_index * volatility_accumulator_scale in
    record f { volatility_accumulator = min v f.max_volatility_accumulator % 2 ^ 32 }

unfoldable pub total_fee_rate : RaydiumDynamicFee → (base tick_spacing : ℕ) → ℕ
unfolding volatility_fee
total_fee_rate f base tick_spacing =
    min (base + volatility_fee f.dynamic_fee_control (f.volatility_accumulator * tick_spacing))
      max_dynamic_fee_rate
