-- ===== src/Dlmm/Bin/Tests.antt =====
-- quote/dlmm.rs: a bin that a swap drains.
use flow_trades_solana.Base.{◌≤◌, ◌≡◌, refl, true, false, some, arith}
use flow_trades_solana.Dlmm.Price.{q64}
use flow_trades_solana.Clmm.Wide.{mul_div_floor, mul_div_ceil}
use flow_trades_solana.Dlmm.Bin.{
  Bin, BinSwap, market_making, max_amount_out, amount_in_for, amount_out_for, fee_from_amount,
  fee_on_top, fill, fill_bin, swap_fee_in, swap_in_bin,
}
use flow_trades_solana.Dlmm.Bin.Laws.{swap_in_bin_bounds}

abbrev bin : Bin
bin = record {
  amount_x = 0;
  amount_y = 500;
  price = q64;
  open_order_amount = 0;
  processed_order_remaining_amount = 0;
  limit_order_ask_side = false;
}

abbrev drained : BinSwap
drained = record { consumed = 506; out = 500; fee = 6 }

drained_lem : swap_in_bin bin q64 10_000_000 1_000 true false true ≡ some drained
unfolding swap_in_bin swap_fee_in fill_bin fill market_making amount_in_for amount_out_for
    mul_div_ceil mul_div_floor fee_from_amount fee_on_top
drained_lem = refl

swap_in_bin_bounds_example : (506 ≤ 1_000) × (500 ≤ max_amount_out bin true false)
unfolding market_making
swap_in_bin_bounds_example =
    swap_in_bin_bounds bin q64 10_000_000 1_000 true false true (omega arith) (omega arith)
      drained_lem
