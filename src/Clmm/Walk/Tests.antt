-- ===== src/Clmm/Walk/Tests.antt =====
-- quote/clmm.rs: a swap in a pool with a static fee, over one tick.
use flow_trades_solana.Base.{◌≤◌, ◌^◌, ◌≡◌, refl, some, none, true, [], ◌∷◌, arith, u64_max}
use flow_trades_solana.Clmm.Price.{raydium_sqrt_price_at_tick}
use flow_trades_solana.Clmm.Step.{
  swap_step, move, deltas_to, amount0_delta, amount1_delta, next_sqrt_price_from_input,
}
use flow_trades_solana.Clmm.Wide.{mul_div_floor, mul_div_ceil, mul_div_256, wide_mul}
use flow_trades_solana.Clmm.Orders.{match_limit_orders}
use flow_trades_solana.Clmm.Raydium.{fee_on_input}
use flow_trades_solana.Base.Int.{pos, negsuc}
use flow_trades_solana.Clmm.Ticks.{TickLayout, TickData, sqrt_price_at_tick, limit_orders_at}
use flow_trades_solana.Clmm.Fees.{ClmmPool, new_step_fee, step, advance}
use flow_trades_solana.Clmm.Course.{course, begin, not_above, limit_of}
use flow_trades_solana.Clmm.Walk.{
  WalkResult, swap_exact_in_pool_within, refused, walk, aim, choose, next_tick, edge, allowed,
  round, approach, turn, arrive, cross_tick, fill_orders, advance_price, add_net, after_turn,
  after_round, toward, most_rounds,
}
use flow_trades_solana.Clmm.Walk.Loop.{swap_static_fuel, swap_more_fuel}
use flow_trades_solana.Clmm.Walk.Bounds.{swap_static_bounds}
use flow_trades_solana.Clmm.Walk.Reach.{Onward}

abbrev pool : ClmmPool
pool = record {
  layout = TickLayout.raydium;
  sqrt_price_x64 = 2 ^ 64;
  liquidity = 1_000_000_000;
  tick_current = pos 0;
  tick_spacing = 10;
  fee_ppm = 2_500;
  fee_ext = record { fee_on = 0; dynamic_fee = none };
  adaptive_fee = none;
  now = 0;
}

abbrev ticks : TickData
ticks = record {
  ticks = (negsuc 9, pos 500_000_000) ∷ (pos 10, negsuc 499_999_999) ∷ [];
  covered_lo = negsuc 599;
  covered_hi = pos 599;
  initialized_arrays = negsuc 599 ∷ pos 0 ∷ [];
  limit_orders = [];
}

abbrev answer : WalkResult
answer = record {
  amount_out = 996_257;
  ticks_crossed = 1;
  end_sqrt_price_x64 = 18_419_209_271_262_579_503;
  steps = 2;
}

swap_lem : swap_exact_in_pool_within 1 pool ticks true 1_000_000 none ≡ some answer
unfolding swap_exact_in_pool_within refused walk course begin not_above limit_of aim choose
    next_tick edge allowed round approach turn arrive cross_tick fill_orders advance_price add_net
    after_turn after_round toward new_step_fee sqrt_price_at_tick raydium_sqrt_price_at_tick step
    swap_step fee_on_input mul_div_floor move deltas_to amount0_delta mul_div_256 wide_mul
    amount1_delta mul_div_ceil match_limit_orders limit_orders_at advance next_sqrt_price_from_input
swap_lem = refl

swap_static_fuel_example :
    swap_exact_in_pool_within 8 pool ticks true 1_000_000 none
    ≡ swap_exact_in_pool_within 1 pool ticks true 1_000_000 none
swap_static_fuel_example = swap_static_fuel 7 pool ticks true 1_000_000 none refl refl

swap_more_fuel_example : swap_exact_in_pool_within 8 pool ticks true 1_000_000 none ≡ some answer
swap_more_fuel_example =
    swap_more_fuel 1 8 (omega arith) pool ticks true 1_000_000 none answer swap_lem

limit_passed : Onward true (2 ^ 64) (limit_of TickLayout.raydium true)
unfolding limit_of
limit_passed = omega arith

swap_static_bounds_example :
    Onward true (2 ^ 64) 18_419_209_271_262_579_503
    × Onward true 18_419_209_271_262_579_503 (limit_of TickLayout.raydium true)
    × 2 ≤ most_rounds
    × 1 ≤ most_rounds
    × 996_257 ≤ u64_max
swap_static_bounds_example =
    swap_static_bounds 0 pool ticks true 1_000_000 none refl refl (omega arith) (omega arith)
      (omega arith) limit_passed swap_lem
