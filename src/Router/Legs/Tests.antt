-- ===== src/Router/Legs/Tests.antt =====
-- quote/router.rs: tests and witnesses of the legs.
use flow_trades_solana.Base.{◌≡◌, refl, none, some, []}
use flow_trades_solana.PoolType.{PoolType}
use flow_trades_solana.PoolState.{PoolState}
use flow_trades_solana.PoolState.Vaults.{RaydiumV4}
use flow_trades_solana.PumpAmm.{FeeTables}
use flow_trades_solana.Router.Legs.{price_cp, swap_base_in_out, v4_leg, curve_out, can_swap}
use flow_trades_solana.Router.Legs.Product.{Priced}
use flow_trades_solana.Router.Legs.Laws.{price_cp_keeps_product}

abbrev no_tables : FeeTables
no_tables = record { fee_tiers = none; fee_schedules = none }

abbrev coins : RaydiumV4
coins = record {
  amm_id = 1;
  authority = 2;
  coin_vault = 3;
  pc_vault = 4;
  coin_mint = 5;
  pc_mint = 6;
  swap_fee_numerator = 25;
  swap_fee_denominator = 10_000;
  need_take_pnl_coin = 100;
  need_take_pnl_pc = 200;
  status = 7;
  pool_open_time = 50;
}

abbrev v4_pool : PoolState
v4_pool = PoolState.raydium_v4 coins

v4_quoted :
    price_cp no_tables [] 0 60 v4_pool PoolType.raydium_v4 1 5 1_000 100_100 200_200
    ≡ some (1_974, 3, 100_000, 200_000)
unfolding price_cp v4_leg swap_base_in_out curve_out can_swap
v4_quoted = refl

-- A pool that waits for its first trade quotes nothing.
v4_early : price_cp no_tables [] 0 49 v4_pool PoolType.raydium_v4 1 5 1_000 100_100 200_200 ≡ none
unfolding price_cp v4_leg can_swap
v4_early = refl

-- A pool whose fees take the whole input, and that holds nothing, divides zero by zero.
emptied : swap_base_in_out 0 5 1 25 10_000 ≡ none
unfolding swap_base_in_out curve_out
emptied = refl

price_cp_keeps_product_example : Priced 1_000 100_100 200_200 1_974 100_000 200_000
price_cp_keeps_product_example =
    price_cp_keeps_product no_tables [] 0 60 v4_pool PoolType.raydium_v4 1 5 1_000 100_100 200_200
      v4_quoted
