-- ===== src/Clmm/Orders/Tests.antt =====
-- quote/clmm.rs: orders at the price one, filled in part and whole.
use flow_trades_solana.Base.{◌≡◌, ◌≤◌, ◌^◌, refl, some, true, arith}
use flow_trades_solana.Clmm.Wide.{mul_div_floor, mul_div_ceil}
use flow_trades_solana.Clmm.Orders.{
  Match, match_limit_orders, fill_fusion_orders, fusion_full_in, input_fee, priced, settle, bought,
  cost,
}
use flow_trades_solana.Clmm.Orders.Laws.{match_limit_orders_bounds, fill_fusion_orders_bounds}

abbrev matched : Match
matched = record { used = 5_013; got = 5_000; filled = 5_000 }

match_lem : match_limit_orders 5_000 1_000_000 (2 ^ 64) 2_500 true true ≡ some matched
unfolding match_limit_orders input_fee priced settle bought cost mul_div_floor mul_div_ceil
match_lem = refl

match_limit_orders_bounds_example : (5_000 ≤ 5_000) × (5_000 ≤ 5_000) × (5_013 ≤ 1_000_000)
match_limit_orders_bounds_example =
    match_limit_orders_bounds 5_000 1_000_000 (2 ^ 64) 2_500 true true (omega arith) (omega arith)
      match_lem

fill_lem : fill_fusion_orders 5_000_000 1_000_000 (2 ^ 64) 2_500 true ≡ some (1_000_000, 997_500)
unfolding fill_fusion_orders fusion_full_in mul_div_floor mul_div_ceil
fill_lem = refl

fill_fusion_orders_bounds_example : (1_000_000 ≤ 1_000_000) × (997_500 ≤ 5_000_000)
fill_fusion_orders_bounds_example =
    fill_fusion_orders_bounds 5_000_000 1_000_000 (2 ^ 64) 2_500 true (omega arith) (omega arith)
      fill_lem
