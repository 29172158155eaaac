-- ===== src/LaunchLab/Tests.antt =====
-- quote/launchlab.rs: a small curve, bought from and sold to.
use flow_trades_solana.Base.{◌+◌, ◌-◌, ◌*◌, ◌≤◌, ◌<◌, ◌≡◌, refl, some}
use flow_trades_solana.LaunchLab.{
  LaunchLabCurve, LaunchLabQuote, ceil_fee, total_fee, quotable, buy_exact_in, sell_exact_in,
  fee_rate_denominator,
}
use flow_trades_solana.LaunchLab.Laws.{
  summed_rate, after_buy, buy_exact_in_bounds, buy-sell_no_gain,
}

abbrev curve : LaunchLabCurve
curve = record {
  status = 0;
  curve_type = 0;
  virtual_base = 1_000_000;
  virtual_quote = 1_000;
  real_base = 0;
  real_quote = 0;
  total_base_sell = 800_000;
  total_quote_fund_raising = 2_000;
  protocol_fee_rate = 2_500;
  platform_fee_rate = 5_000;
  creator_fee_rate = 2_500;
}

abbrev bought : LaunchLabQuote
bought = record { amount_out = 90_081; fee = 1 }

abbrev sold : LaunchLabQuote
sold = record { amount_out = 97; fee = 1 }

bought_lem : buy_exact_in curve 100 ≡ some bought
unfolding buy_exact_in total_fee ceil_fee quotable
bought_lem = refl

sold_lem : sell_exact_in (after_buy curve 100 bought) 90_081 ≡ some sold
unfolding sell_exact_in total_fee ceil_fee quotable
sold_lem = refl

buy_exact_in_bounds_example :
    (0 + (100 - 1) ≤ 2_000)
    × (0 + 90_081 ≤ 800_000)
    × (0 < 90_081)
    × (90_081 ≤ 1_000_000 - 0)
    × (1 ≤ 100)
    × (100 * summed_rate curve ≤ 1 * fee_rate_denominator)
    × (1 * fee_rate_denominator < 100 * summed_rate curve + fee_rate_denominator)
buy_exact_in_bounds_example = buy_exact_in_bounds curve 100 bought_lem

buy-sell_no_gain_example : 97 + 1 ≤ 100 - 1
buy-sell_no_gain_example = buy-sell_no_gain curve 100 bought_lem sold_lem
