-- ===== src/Clmm/Price/Tests.antt =====
-- quote/clmm.rs: the ends of both price tables, and the tick of the price one.
use flow_trades_solana.Base.{◌≡◌, ◌^◌, refl, some}
use flow_trades_solana.Base.Int.{pos}
use flow_trades_solana.Clmm.Wide.{wide_mul}
use flow_trades_solana.Clmm.Price.{
  min_tick, max_tick, raydium_sqrt_price_at_tick, orca_sqrt_price_at_tick, orca_tick_at_sqrt_price,
  multiplied, by_q64, by_q96, msb, log_fraction,
}

raydium_lowest : raydium_sqrt_price_at_tick min_tick ≡ some 4_295_048_016
unfolding raydium_sqrt_price_at_tick multiplied by_q64
raydium_lowest = refl

raydium_highest : raydium_sqrt_price_at_tick max_tick ≡ some 79_226_673_521_066_979_257_578_248_091
unfolding raydium_sqrt_price_at_tick multiplied by_q64
raydium_highest = refl

orca_lowest : orca_sqrt_price_at_tick min_tick ≡ 4_295_048_016
unfolding orca_sqrt_price_at_tick multiplied by_q64 by_q96
orca_lowest = refl

orca_highest : orca_sqrt_price_at_tick max_tick ≡ 79_226_673_515_401_279_992_447_579_055
unfolding orca_sqrt_price_at_tick multiplied by_q64 by_q96 wide_mul
orca_highest = refl

price_one : orca_tick_at_sqrt_price (2 ^ 64) ≡ some (pos 0)
unfolding orca_tick_at_sqrt_price orca_sqrt_price_at_tick msb log_fraction multiplied by_q64 by_q96
price_one = refl
