-- ===== src/Math/Clmm/MultiTick/Tests.antt =====
-- quote/math.rs: the walk over the ranges of a concentrated pool.
use flow_trades_solana.Base.{ℕ, zero, suc, ◌^◌, ◌≡◌, ◌↔◌, refl, true, false, some, List, [], ◌∷◌}
use flow_trades_solana.Base.Int.{ℤ, pos}
use flow_trades_solana.Math.Clmm.{q64, curve_out, compute_clmm_output, virtual_reserves}
use flow_trades_solana.Math.Clmm.MultiTick.{
  compute_clmm_output_multi_tick, Walk, start, walk, walk_fuel, round, after, crossing, in_range,
  filled, shifted_sqrt,
}
use flow_trades_solana.Math.Clmm.MultiTick.Laws.{
  Loop, walk_fuel_enough, compute_clmm_output_multi_tick_single_range,
}

sold_in_range : compute_clmm_output q64 1_000_000 1_000 30 true ≡ some 997
unfolding compute_clmm_output curve_out
sold_in_range = refl

abbrev one_boundary : List (ℤ × ℕ)
one_boundary = (pos 10, 500_000) ∷ []

-- The state in which a sale across one boundary ends.
abbrev sold : Walk
sold = record {
  amount_remaining = 0;
  current_sqrt = 1844674407370955161;
  current_liq = 500_000;
  total_output = 934_375;
  crossings = 1;
}

one_crossing : walk walk_fuel true one_boundary (start 20_000_000 q64 1_000_000) ≡ some sold
unfolding walk round after crossing in_range filled shifted_sqrt virtual_reserves
one_crossing = refl

walk_fuel_enough_example :
    (walk walk_fuel true one_boundary (start 20_000_000 q64 1_000_000) ≡ some sold)
    ↔ Loop true one_boundary (start 20_000_000 q64 1_000_000) (some sold)
walk_fuel_enough_example = walk_fuel_enough true one_boundary 20_000_000 q64 1_000_000 (some sold)

-- The loop as the source runs it.
one_crossing_unbounded : Loop true one_boundary (start 20_000_000 q64 1_000_000) (some sold)
one_crossing_unbounded = walk_fuel_enough_example.0 one_crossing

abbrev evenly : ℕ → List (ℤ × ℕ)
evenly zero = []
evenly (suc n) = (pos n, 1_000_000) ∷ evenly n

-- Past fourteen boundaries an input is left over when the walk stops at its limit, and what was bought is quoted.
abbrev stranded : Walk
stranded = record {
  amount_remaining = 999_999_000_001_000_000;
  current_sqrt = 18446744073709551616000000;
  current_liq = 1_000_000;
  total_output = 999_999;
  crossings = 11;
}

limit_reached : walk walk_fuel false (evenly 14) (start (10 ^ 18) q64 1_000_000) ≡ some stranded
unfolding walk round after crossing in_range filled shifted_sqrt virtual_reserves
limit_reached = refl

-- Without liquidity nothing is bought, and nothing is what is quoted.
dry : compute_clmm_output_multi_tick q64 0 1_000 30 true [] ≡ some 0
unfolding compute_clmm_output_multi_tick walk round after
dry = refl

compute_clmm_output_multi_tick_single_range_example :
    compute_clmm_output_multi_tick q64 1_000_000 1_000 30 true [] ≡ some 997
compute_clmm_output_multi_tick_single_range_example =
    compute_clmm_output_multi_tick_single_range q64 1_000_000 1_000 30 true sold_in_range
