-- ===== src/PumpBonding/Tests.antt =====
-- quote/pump_bonding.rs: a small curve, bought from and sold to.
use flow_trades_solana.Base.{ℕ, ◌+◌, ◌≤◌, ◌<◌, ◌≡◌, refl, false, none, some, arith}
use flow_trades_solana.PumpBonding.{
  PumpCurve, PumpQuote, tier_for, tier_fees, ceil_bps, quotable, fee_bps, both_fees, fees, shrink,
  priced_in, buy_exact_in, sell_exact_in,
}
use flow_trades_solana.PumpBonding.Laws.{
  exact_fees, after_buy, priced_in_largest, sell_after_buy_no_gain,
}

abbrev curve : PumpCurve
curve = record {
  virtual_token_reserves = 1_000_000;
  virtual_sol_reserves = 1_000;
  real_token_reserves = 900_000;
  real_sol_reserves = 0;
  token_total_supply = 1_000_000;
  complete = false;
  is_mayhem_mode = false;
  is_cashback_coin = false;
  non_sol_quote = false;
  has_creator = false;
  creator_fee_bps = 0;
}

abbrev bought : PumpQuote
bought = record { amount_out = 164_578; fee = 2 }

abbrev sold : PumpQuote
sold = record { amount_out = 195; fee = 2 }

base_lem : priced_in (fee_bps none curve).0 (fee_bps none curve).1 200 ≡ some 198
unfolding fee_bps tier_fees tier_for priced_in shrink both_fees ceil_bps
base_lem = refl

bought_lem : buy_exact_in none curve 200 ≡ some bought
unfolding buy_exact_in quotable fee_bps tier_fees tier_for priced_in shrink both_fees ceil_bps
bought_lem = refl

sold_lem : sell_exact_in none (after_buy curve 198 164_578) 164_578 ≡ some sold
unfolding sell_exact_in quotable fees fee_bps tier_fees tier_for both_fees ceil_bps
sold_lem = refl

priced_in_largest_example :
    (y : ℕ) × (priced_in 95 30 1_000 ≡ some y)
    × (y + exact_fees 95 30 y ≤ 1_000)
    × ((z : ℕ) → y < z → 1_000 < z + exact_fees 95 30 z)
priced_in_largest_example = priced_in_largest 95 30 1_000 (omega arith) (omega arith) (omega arith)

sell_after_buy_no_gain_example : (198 + 2 ≤ 200) × (195 + 2 < 198)
sell_after_buy_no_gain_example =
    sell_after_buy_no_gain none none curve 200 198 base_lem bought_lem sold_lem
