-- ===== src/Clmm/Fees.antt =====
-- quote/clmm.rs: the fee of a step: static, Raydium's dynamic fee, or Orca's adaptive fee, and the end of
-- the step that it asks for. A tick spacing is positive where a swap is priced, and a tick group is where
-- it was read.
pub mod Laws
use flow_trades_solana.Base.{
  ℕ, ◌+◌, ◌-◌, ◌*◌, min, max, Bool, true, false, not, Option, none, some, ◌||◌, ◌&&◌, ltb, leb,
  ◌==◌, if◌then◌else◌, ◌>>=◌, div_ceil,
}
use flow_trades_solana.Base.Int.{
  ℤ, pos, ◌+ℤ◌, ◌-ℤ◌, ◌*ℤ◌, div_euclid, div_trunc, is_multiple, leb_ℤ, ltb_ℤ, min_ℤ, max_ℤ,
  wrap_i32,
}
use flow_trades_solana.Clmm.Price.{
  min_tick, max_tick, orca_sqrt_price_at_tick, orca_tick_at_sqrt_price,
}
use flow_trades_solana.Clmm.Ticks.{TickLayout, sqrt_price_at_tick}
use flow_trades_solana.Clmm.Volatility.{volatility_accumulator_scale}
use flow_trades_solana.Clmm.Raydium.{RaydiumDynamicFee, RaydiumFeeExt}
use flow_trades_solana.Clmm.Raydium
use flow_trades_solana.Clmm.Orca.{OrcaAdaptiveFee}
use flow_trades_solana.Clmm.Orca

pub record ClmmPool : Type 0 where
  pub layout : TickLayout
  pub sqrt_price_x64 : ℕ
  pub liquidity : ℕ
  pub tick_current : ℤ
  -- A negative spacing, which the source refuses as it refuses zero, is left out.
  pub tick_spacing : ℕ
  pub fee_ppm : ℕ
  pub fee_ext : RaydiumFeeExt
  pub adaptive_fee : Option OrcaAdaptiveFee
  pub now : ℕ

-- (index, price) of the ends of the core range.
pub record OrcaStep : Type 0 where
  pub fee : OrcaAdaptiveFee
  pub group_index : ℤ
  pub core_lower : Option (ℤ × ℕ)
  pub core_upper : Option (ℤ × ℕ)

pub data StepFee : Type 0 where
  static : StepFee
  raydium_dynamic : RaydiumDynamicFee → (ts_index : ℤ) → StepFee
  orca_adaptive : OrcaStep → StepFee

-- The range beyond which the accumulator is saturated; `i32` arithmetic wraps around.
orca_start : (tick : ℤ) → (now : ℕ) → OrcaAdaptiveFee → OrcaStep
orca_start tick now before =
    let group_index = div_euclid tick before.tick_group_size in
    let fee = Orca.update_reference group_index now before in
    let group = fee.tick_group_size in
    let delta = pos (
      div_ceil (fee.max_volatility_accumulator - fee.volatility_reference)
        volatility_accumulator_scale) in
    let lo = wrap_i32 (fee.tick_group_index_reference -ℤ delta) in
    let hi = wrap_i32 (fee.tick_group_index_reference +ℤ delta) in
    let lo_tick = wrap_i32 (lo *ℤ group) in
    let hi_tick = wrap_i32 (hi *ℤ group +ℤ pos group) in
    record {
      fee = fee;
      group_index = group_index;
      core_lower =
          if ltb_ℤ min_tick lo_tick then some (lo, orca_sqrt_price_at_tick lo_tick) else none;
      core_upper =
          if ltb_ℤ hi_tick max_tick then some (hi, orca_sqrt_price_at_tick hi_tick) else none;
    }

-- `StepFee::new`.
unfoldable pub new_step_fee : ClmmPool → Option StepFee
unfolding orca_start
new_step_fee pool = elim pool.fee_ext.dynamic_fee [
  | some fee ↦
      let ts_index = div_euclid pool.tick_current pool.tick_spacing in
      some (raydium_dynamic (Raydium.update_reference ts_index pool.now fee) ts_index)
  | none ↦ elim pool.adaptive_fee [
    | none ↦ some static
    | some fee ↦
        if ltb pool.now fee.trade_enable_timestamp
        then none
        else some (orca_adaptive (orca_start pool.tick_current pool.now fee))
  ]
]

-- What a step is charged, where it must end, and whether the fee skips being re-read.
pub record Pricing : Type 0 where
  pub fee : StepFee
  pub rate : ℕ
  pub bounded : ℕ
  pub skipped : Bool

-- `clamp` takes in the saturation of the product on `i32`.
clamp_tick : ℤ → ℤ
clamp_tick t = max_ℤ min_tick (min_ℤ t max_tick)

step_raydium :
    RaydiumDynamicFee
    → (ts_index : ℤ) → (base target liquidity spacing : ℕ) → TickLayout
    → Bool
    → Option Pricing
step_raydium before ts_index base target liquidity spacing layout a_to_b =
    let fee = Raydium.update_volatility_accumulator ts_index before in
    let rate = Raydium.total_fee_rate fee base spacing in
    let end_index = if a_to_b then ts_index else ts_index +ℤ pos 1 in
    if liquidity == 0 || fee.volatility_accumulator == fee.max_volatility_accumulator
    then some (record {
      fee = raydium_dynamic fee ts_index;
      rate = rate;
      bounded = target;
      skipped = true;
    })
    else (do
      b_price ← sqrt_price_at_tick layout (clamp_tick (end_index *ℤ spacing))
      some (record {
        fee = raydium_dynamic fee ts_index;
        rate = rate;
        bounded =
            if (a_to_b && leb target b_price) || (not a_to_b && leb b_price target)
            then b_price
            else target;
        skipped = false;
      }))

-- The bound outside the core range, where there is one.
outside_core : OrcaStep → (target : ℕ) → Bool → Option ℕ
outside_core o target a_to_b =
    let above : Option ℕ = elim o.core_upper [
      | none ↦ none
      | some (hi, hi_price) ↦
          if ltb_ℤ hi o.group_index
          then some (if a_to_b then max target hi_price else target)
          else none
    ] in
    elim o.core_lower [
      | none ↦ above
      | some (lo, lo_price) ↦
          if ltb_ℤ o.group_index lo
          then some (if a_to_b then target else min target lo_price)
          else above
    ]

step_orca : OrcaStep → (base target liquidity : ℕ) → Bool → Pricing
step_orca before base target liquidity a_to_b =
    let fee = Orca.update_volatility_accumulator before.group_index before.fee in
    let o = record before { fee = fee } in
    let rate = Orca.total_fee_rate fee base in
    let group = fee.tick_group_size in
    let end_tick = if a_to_b then o.group_index *ℤ group else o.group_index *ℤ group +ℤ pos group in
    let b_price = orca_sqrt_price_at_tick (clamp_tick end_tick) in
    if fee.adaptive_fee_control_factor == 0 || liquidity == 0
    then record { fee = orca_adaptive o; rate = rate; bounded = target; skipped = true }
    else elim (outside_core o target a_to_b) [
      | some bound ↦ record { fee = orca_adaptive o; rate = rate; bounded = bound; skipped = true }
      | none ↦ record {
        fee = orca_adaptive o;
        rate = rate;
        bounded = if a_to_b then max target b_price else min target b_price;
        skipped = false;
      }
    ]

-- `StepFee::step`.
unfoldable pub step :
    StepFee → (base target liquidity spacing : ℕ) → TickLayout → Bool → Option Pricing
unfolding step_raydium step_orca clamp_tick outside_core
step static base target liquidity spacing layout a_to_b =
    some (record { fee = static; rate = base; bounded = target; skipped = true })
step (raydium_dynamic fee ts_index) base target liquidity spacing layout a_to_b =
    step_raydium fee ts_index base target liquidity spacing layout a_to_b
step (orca_adaptive o) base target liquidity spacing layout a_to_b =
    some (step_orca o base target liquidity a_to_b)

abbrev toward : Bool → ℤ → ℤ
toward a_to_b i = if a_to_b then i -ℤ pos 1 else i +ℤ pos 1

advance_raydium :
    RaydiumDynamicFee → (ts_index : ℤ) → Bool → (landed : ℤ) → (spacing : ℕ) → Bool → StepFee
advance_raydium fee ts_index skipped landed spacing a_to_b =
    let base = div_euclid landed spacing in
    let found = if not a_to_b && is_multiple landed spacing then base -ℤ pos 1 else base in
    let same = fee.volatility_accumulator == fee.max_volatility_accumulator in
    if skipped
    then raydium_dynamic (if same then fee else Raydium.update_volatility_accumulator found fee)
        (toward a_to_b found)
    else raydium_dynamic fee (toward a_to_b ts_index)

-- (tick, whether the price is the boundary of a group)
orca_landed : (sqrt_p next_tick_price : ℕ) → (next_tick : ℤ) → (group : ℕ) → Option (ℤ × Bool)
orca_landed sqrt_p next_tick_price next_tick group =
    if sqrt_p == next_tick_price
    then some (next_tick, is_multiple next_tick group)
    else (orca_tick_at_sqrt_price sqrt_p >>= λ t.
        some (t, is_multiple t group && (sqrt_p == orca_sqrt_price_at_tick t)))

advance_orca : OrcaStep → Bool → (landed : ℤ) → (on_boundary : Bool) → Bool → StepFee
advance_orca o skipped landed on_boundary a_to_b =
    let group = o.fee.tick_group_size in
    let last =
      if on_boundary && not a_to_b
      then div_trunc landed group -ℤ pos 1
      else div_euclid landed group in
    if skipped && ((a_to_b && ltb_ℤ last o.group_index) || (not a_to_b && ltb_ℤ o.group_index last))
    then orca_adaptive (record o {
      fee = Orca.update_volatility_accumulator last o.fee;
      group_index = toward a_to_b last;
    })
    else orca_adaptive (record o { group_index = toward a_to_b o.group_index })

-- `StepFee::advance`.
unfoldable pub advance :
    StepFee
    → Bool
    → (sqrt_p next_tick_price : ℕ) → (next_tick tick : ℤ) → (spacing : ℕ) → Bool
    → Option StepFee
unfolding advance_raydium orca_landed advance_orca
advance static skipped sqrt_p next_tick_price next_tick tick spacing a_to_b = some static
advance (raydium_dynamic fee ts_index) skipped sqrt_p next_tick_price next_tick tick spacing
      a_to_b =
    let landed = if sqrt_p == next_tick_price then next_tick else tick in
    some (advance_raydium fee ts_index skipped landed spacing a_to_b)
advance (orca_adaptive o) skipped sqrt_p next_tick_price next_tick tick spacing a_to_b =
    if skipped
    then (orca_landed sqrt_p next_tick_price next_tick o.fee.tick_group_size >>= λ (t, on_boundary).
        some (advance_orca o skipped t on_boundary a_to_b))
    else some (advance_orca o skipped next_tick false a_to_b)
