-- ===== src/Dlmm/Walk/Tests.antt =====
-- quote/dlmm.rs: a swap that ends in the first bin.
use flow_trades_solana.Base.{
  ◌≤◌, ◌≡◌, refl, true, false, ◌&&◌, not, ◌==◌, arith, [], ◌∷◌, none, some,
}
use flow_trades_solana.Base.Int.{pos}
use flow_trades_solana.Dlmm.Pair.{
  DlmmPair, is_parsed, is_tradable, update_references, update_volatility_accumulator, base_fee_rate,
  variable_fee_rate, total_fee_rate, saturating_sub_i64, decayed, supports_limit_orders,
  fee_on_input,
}
use flow_trades_solana.Dlmm.Price.{q64}
use flow_trades_solana.Clmm.Wide.{mul_div_floor, mul_div_ceil}
use flow_trades_solana.Dlmm.Bin.{
  Bin, market_making, max_amount_out, amount_in_for, amount_out_for, fee_from_amount, fill,
  fill_bin, swap_fee_in, swap_in_bin,
}
use flow_trades_solana.Dlmm.Arrays.{
  BinArray, array_index, next_liquid, needs_extension, array, lower_bin_id, partition_point,
}
use flow_trades_solana.Dlmm.Walk.{
  Walked, and_then, ok_or, DlmmBins, DlmmQuote, WalkState, Direction, swap_here, visit, advance,
  upper_bin_id, inside, bins_ahead, walk_bins, enter, next_array, walk_arrays, quote_of,
  direction_of, start_of, swap_exact_in,
}
use flow_trades_solana.Dlmm.Walk.Exit.{walk_bins_exit}
use flow_trades_solana.Dlmm.Walk.Laws.{Finished, walk_arrays-Finished}

abbrev pair : DlmmPair
pair = record {
  base_factor = 10_000;
  filter_period = 0;
  decay_period = 0;
  reduction_factor = 0;
  variable_fee_control = 0;
  max_volatility_accumulator = 0;
  base_fee_power_factor = 0;
  function_type = 1;
  collect_fee_mode = 0;
  volatility_accumulator = 0;
  volatility_reference = 0;
  index_reference = pos 0;
  last_update_timestamp = pos 0;
  pair_type = 0;
  active_id = pos 0;
  bin_step = 10;
  status = 0;
  activation_type = 0;
  activation_point = 0;
  has_rewards = false;
}

abbrev bin : Bin
bin = record {
  amount_x = 0;
  amount_y = 500;
  price = q64;
  open_order_amount = 0;
  processed_order_remaining_amount = 0;
  limit_order_ask_side = false;
}

abbrev bins : DlmmBins
bins = record {
  pair = pair;
  arrays = record { index = pos 0; bins = bin ∷ [] } ∷ [];
  liquid = pos 0 ∷ [];
  has_extension = false;
}

abbrev down : Direction
down = record { swap_for_y = true; with_orders = false; on_input = true }

abbrev begun : WalkState
begun = record {
  pair = pair;
  left = 100;
  out_total = 0;
  fee_total = 0;
  arrays_entered = 0;
  start_bin = none;
}

abbrev ended : WalkState
ended = record {
  pair = pair;
  left = 0;
  out_total = 99;
  fee_total = 1;
  arrays_entered = 1;
  start_bin = some (pos 0);
}

abbrev quoted : DlmmQuote
quoted = record { amount_out = 99; fee = 1; start_bin = pos 0; end_bin = pos 0; arrays = 1 }

ended_lem : walk_arrays 3 bins down begun ≡ Walked.ok ended
unfolding walk_arrays next_array needs_extension and_then ok_or next_liquid partition_point array
    array_index enter upper_bin_id lower_bin_id bins_ahead walk_bins inside visit max_amount_out
    market_making update_volatility_accumulator swap_here total_fee_rate base_fee_rate
    variable_fee_rate swap_in_bin swap_fee_in fee_from_amount fill_bin fill amount_in_for
    amount_out_for mul_div_ceil mul_div_floor advance
ended_lem = refl

walk_arrays-Finished_example : Finished 3 begun ended
walk_arrays-Finished_example = walk_arrays-Finished 3 bins down begun ended_lem

quoted_lem : swap_exact_in bins true 100 (pos 0) 0 3 ≡ Walked.ok quoted
unfolding swap_exact_in is_parsed is_tradable update_references saturating_sub_i64 decayed
    direction_of start_of supports_limit_orders fee_on_input quote_of walk_arrays next_array
    needs_extension and_then ok_or next_liquid partition_point array array_index enter upper_bin_id
    lower_bin_id bins_ahead walk_bins inside visit max_amount_out market_making
    update_volatility_accumulator swap_here total_fee_rate base_fee_rate variable_fee_rate
    swap_in_bin swap_fee_in fee_from_amount fill_bin fill amount_in_for amount_out_for mul_div_ceil
    mul_div_floor advance
quoted_lem = refl

abbrev bin_array : BinArray
bin_array = record { index = pos 0; bins = bin ∷ [] }

abbrev filled : WalkState
filled = record {
  pair = pair;
  left = 0;
  out_total = 99;
  fee_total = 1;
  arrays_entered = 0;
  start_bin = none;
}

filled_lem : walk_bins 1 down bin_array begun ≡ Walked.ok filled
unfolding and_then ok_or upper_bin_id lower_bin_id bins_ahead walk_bins inside visit max_amount_out
    market_making update_volatility_accumulator swap_here total_fee_rate base_fee_rate
    variable_fee_rate swap_in_bin swap_fee_in fee_from_amount fill_bin fill amount_in_for
    amount_out_for mul_div_ceil mul_div_floor advance
filled_lem = refl

one_ahead : bins_ahead down bin_array begun.pair.active_id ≤ 1
unfolding bins_ahead lower_bin_id upper_bin_id
one_ahead = omega arith

walk_bins_exit_example : (not (filled.left == 0) && inside bin_array filled.pair.active_id) ≡ false
walk_bins_exit_example = walk_bins_exit 1 down bin_array begun one_ahead filled_lem
