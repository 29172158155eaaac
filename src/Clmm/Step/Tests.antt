-- ===== src/Clmm/Step/Tests.antt =====
-- quote/clmm.rs: a step that stops short of its target.
use flow_trades_solana.Base.{◌≡◌, ◌^◌, refl, some, true, arith}
use flow_trades_solana.Clmm.Wide.{mul_div_floor, mul_div_ceil, mul_div_256, wide_mul}
use flow_trades_solana.Clmm.Step.{
  Step, swap_step, move, move_short, charge, deltas_to, amount0_delta, amount1_delta,
  next_sqrt_price_from_input,
}
use flow_trades_solana.Clmm.Step.Laws.{Steps, swap_step-Steps}

abbrev stepped : Step
stepped = record { next = 18_428_361_782_831_177_517; used = 1_000_000; got = 996_505 }

swap_step_lem : swap_step (2 ^ 64) (2 ^ 63) 1_000_000_000 1_000_000 2_500 true true ≡ some stepped
unfolding swap_step charge move move_short deltas_to amount0_delta amount1_delta
    next_sqrt_price_from_input mul_div_floor mul_div_ceil mul_div_256 wide_mul
swap_step_lem = refl

swap_step-Steps_example : Steps true (2 ^ 64) (2 ^ 63) 1_000_000_000 1_000_000 stepped
swap_step-Steps_example =
    swap_step-Steps (2 ^ 64) (2 ^ 63) 1_000_000_000 1_000_000 2_500 true true (omega arith)
      (omega arith) (omega arith) (omega arith) (omega arith) (omega arith) swap_step_lem
