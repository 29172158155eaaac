-- ===== src/Byreal/Tests.antt =====
-- quote/byreal_fee.rs: the source's own cases of the decay, and a rate above the oracle's buffer.
use flow_trades_solana.Base.{◌≡◌, refl, some, true, false, []}
use flow_trades_solana.Byreal.{
  ByrealFee, decay_enabled, scaled, power, decay_fee_rate, base_fee_rate,
}

abbrev fee : ByrealFee
fee = record {
  pool_trade_fee_rate = 0;
  flags = 3;
  decay_init_rate = 2;
  decay_decrease_rate = 1;
  decay_interval = 255;
  open_time = 1_000;
  status = 0;
  fee_on = 0;
  arbitrage_fee_buffer_ppm = 100;
  slippage_fee_base = 0;
  slippage_fee_threshold = 0;
  imbalance_fee_base = 0;
  imbalance_fee_x = 100;
  decimals_0 = 6;
  decimals_1 = 6;
  feed_id_0 = [];
  feed_id_1 = [];
  oracle_0 = 0;
  oracle_1 = 0;
}

at_open : base_fee_rate fee 2_500 true 1_000 ≡ some 20_000
unfolding base_fee_rate decay_enabled decay_fee_rate power scaled
at_open = refl

after_two : base_fee_rate fee 2_500 true 1_510 ≡ some 19_602
unfolding base_fee_rate decay_enabled decay_fee_rate power scaled
after_two = refl

not_selling_0 : base_fee_rate fee 2_500 false 1_510 ≡ some 2_500
unfolding base_fee_rate decay_enabled
not_selling_0 = refl
