-- ===== src/Byreal/Dynamic/Tests.antt =====
-- quote/byreal_fee.rs: a pool priced half a percent above the oracle.
use flow_trades_solana.Base.{◌≡◌, ◌≤◌, ◌<◌, ◌-◌, ◌*◌, ◌/◌, ◌^◌, max, refl, some, true, [], ℕ}
use flow_trades_solana.Base.Int.{pos, negsuc}
use flow_trades_solana.Clmm.Wide.{mul_div_floor, mul_div_ceil}
use flow_trades_solana.Byreal.{ByrealFee, fee_rate_denominator, token1_is_quote}
use flow_trades_solana.Byreal.Dynamic.{
  PythPrice, DynInputs, dynamic_fee_rate, usable, price_index, index_ratio, trade_size,
  quote_from_base, balances, deepens, imbalance_fee, pool_price, arbitrage_fee,
}
use flow_trades_solana.Byreal.Dynamic.Laws.{gap_ppm, dynamic_fee_rate_lem}

abbrev fee : ByrealFee
fee = record {
  pool_trade_fee_rate = 400;
  flags = 24;
  decay_init_rate = 0;
  decay_decrease_rate = 0;
  decay_interval = 0;
  open_time = 0;
  status = 0;
  fee_on = 0;
  arbitrage_fee_buffer_ppm = 100;
  slippage_fee_base = 0;
  slippage_fee_threshold = 0;
  imbalance_fee_base = 0;
  imbalance_fee_x = 100;
  decimals_0 = 6;
  decimals_1 = 6;
  feed_id_0 = [];
  feed_id_1 = [];
  oracle_0 = 0;
  oracle_1 = 0;
}

abbrev dollar : PythPrice
dollar = record { price = pos 100_000_000; exponent = negsuc 7; publish_time = pos 9_000 }

abbrev inputs : DynInputs
inputs = record {
  vault_0 = 1_000_000_000;
  vault_1 = 1_000_000_000;
  price_0 = dollar;
  price_1 = dollar;
}

abbrev sqrt_price : ℕ
sqrt_price = 2 ^ 64 * 10_025 / 10_000

rate_lem : dynamic_fee_rate fee 400 sqrt_price inputs true 1_000_000 (pos 10_000) ≡ some 4_907
unfolding dynamic_fee_rate usable price_index index_ratio trade_size quote_from_base balances
    deepens imbalance_fee pool_price arbitrage_fee token1_is_quote mul_div_floor mul_div_ceil
rate_lem = refl

dynamic_fee_rate_lem_example :
    (true ≡ true)
    × (true ≡ true)
    × (p_0 : ℕ) × (p_index : ℕ) × (pool_price sqrt_price ≡ some p_0)
    × (price_index dollar dollar 6 6 ≡ some p_index)
    × (0 < p_index)
    × (4_907 ≡ max 400 (gap_ppm p_0 p_index - 100))
    × (4_907 ≤ fee_rate_denominator)
dynamic_fee_rate_lem_example =
    dynamic_fee_rate_lem fee 400 sqrt_price inputs true 1_000_000 (pos 10_000) rate_lem
