-- ===== src/Dbc/Walk/Tests.antt =====
-- quote/dbc.rs: a buy inside the only segment.
use flow_trades_solana.Base.{true, ◌<◌, ◌+◌, ◌*◌, ◌^◌, ◌≤◌, ◌≡◌, refl, false, some, [], ◌∷◌, arith}
use flow_trades_solana.DammV2.Price.{delta_a, next_sqrt_price_from_b}
use flow_trades_solana.Dbc.Config.{DbcConfig, DbcCurve, DbcQuote}
use flow_trades_solana.Dbc.Fees.{fee_numerator, base_fee_numerator, variable_fee_numerator}
use flow_trades_solana.Dbc.{
  is_complete, is_empty, quotable, fee_of, fee_on_input, input_side, walked, output_side,
  swap_exact_in,
}
use flow_trades_solana.Dbc.Laws.{reaching, swap_exact_in_stays_on_curve}
use flow_trades_solana.Dbc.Walk.{delta_quote, buy_last, buy_whole, buy_loop, quote_to_base}

abbrev config : DbcConfig
config = record {
  collect_fee_mode = 0;
  activation_type = 0;
  migration_quote_threshold = 100_000;
  migration_sqrt_price = 2 ^ 65;
  sqrt_start_price = 2 ^ 63;
  curve = (2 ^ 65, 2 ^ 80) ∷ [];
  cliff_fee_numerator = 10_000_000;
  first_factor = 0;
  second_factor = 0;
  third_factor = 0;
  base_fee_mode = 0;
  dynamic_fee = false;
  variable_fee_control = 0;
  bin_step = 0;
}

abbrev curve : DbcCurve
curve = record {
  sqrt_price = 2 ^ 64;
  base_reserve = 100_000;
  quote_reserve = 0;
  activation_point = 0;
  is_migrated = false;
  volatility_accumulator = 0;
  config = config;
}

bought_984 : quote_to_base curve 1_000 ≡ some (984, 2 ^ 64 + 1_000 * 2 ^ 48)
unfolding quote_to_base buy_loop buy_last buy_whole delta_quote delta_a next_sqrt_price_from_b
bought_984 = refl

abbrev swapped : DbcQuote
swapped = record { amount_out = 975; fee = 10; next_sqrt_price = 2 ^ 64 + 990 * 2 ^ 48 }

swapped_lem : swap_exact_in curve true 1_000 0 ≡ some swapped
unfolding swap_exact_in quotable is_complete is_empty fee_numerator base_fee_numerator
    variable_fee_numerator fee_of fee_on_input input_side walked output_side quote_to_base buy_loop
    buy_last buy_whole delta_quote delta_a next_sqrt_price_from_b
swapped_lem = refl

swap_exact_in_stays_on_curve_example :
    (0 < 975)
    × (0 + reaching curve true 1_000 10 < 100_000)
    × (2 ^ 64 ≤ 2 ^ 64 + 990 * 2 ^ 48)
    × (2 ^ 64 + 990 * 2 ^ 48 ≤ 2 ^ 65)
swap_exact_in_stays_on_curve_example =
    swap_exact_in_stays_on_curve curve 1_000 0 (omega arith) swapped_lem
