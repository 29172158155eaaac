-- ===== src/PumpAmm/Tests.antt =====
-- execution/amms/pumpfun_amm.rs: fee tiers of pools.
use flow_trades_solana.Base.{ℕ, Bool, true, false, none, [], ◌≡◌, refl}
use flow_trades_solana.Base.Bytes.{Pubkey}
use flow_trades_solana.PoolState.{PoolState}
use flow_trades_solana.Router.Reserves.{sol_native_mint}
use flow_trades_solana.PumpAmm.{
  FeeTables, pamm_total_fee_bps, total_bps, pamm_fee_tier, schedules_of, or_dear, schedule_for,
  is_sol_like_quote, tier_for, pamm_market_cap_lamports, tiers_of, default_tiers, tier_of_row,
  with_creator_bps, dearest,
}
use flow_trades_solana.PumpBonding.{find_tier}

abbrev no_tables : FeeTables
no_tables = record { fee_tiers = none; fee_schedules = none }

pool_with :
    (quote_mint : Pubkey)
    → (quote_reserve base_supply : ℕ) → (non_canonical : Bool) → (creator_fee_bps : ℕ) → PoolState
pool_with quote_mint quote_reserve base_supply non_canonical creator_fee_bps =
    PoolState.pump_fun_amm (record {
      pool = 1;
      base_mint = 2;
      quote_mint = quote_mint;
      pool_base_vault = 3;
      pool_quote_vault = 4;
      coin_creator = 5;
      base_reserve = 1_000;
      quote_reserve = quote_reserve;
      protocol_fee_recipient = 6;
      buyback_accounts = [];
      base_supply = base_supply;
      virtual_quote_reserve = 0;
      pamm_flags = record {
        non_canonical = non_canonical;
        mayhem = false;
        cashback = false;
        creator_fee_bps = creator_fee_bps;
      };
    })

-- A market cap of 420 SOL reaches the second tier.
second_tier :
    pamm_total_fee_bps no_tables (pool_with sol_native_mint 420_000_000_000 1_000 false 0) ≡ 120
unfolding pamm_total_fee_bps total_bps pamm_fee_tier pool_with schedules_of or_dear schedule_for
    is_sol_like_quote tier_for pamm_market_cap_lamports tiers_of default_tiers tier_of_row
    with_creator_bps dearest find_tier
second_tier = refl

below_it :
    pamm_total_fee_bps no_tables (pool_with sol_native_mint 419_999_999_999 1_000 false 0) ≡ 125
unfolding pamm_total_fee_bps total_bps pamm_fee_tier pool_with schedules_of or_dear schedule_for
    is_sol_like_quote tier_for pamm_market_cap_lamports tiers_of default_tiers tier_of_row
    with_creator_bps dearest find_tier
below_it = refl

-- Of an unknown supply, the dearest.
unknown_supply :
    pamm_total_fee_bps no_tables (pool_with sol_native_mint 420_000_000_000 0 false 0) ≡ 125
unfolding pamm_total_fee_bps total_bps pamm_fee_tier pool_with schedules_of or_dear schedule_for
    is_sol_like_quote tier_for pamm_market_cap_lamports tiers_of default_tiers tier_of_row
    with_creator_bps dearest find_tier
unknown_supply = refl

-- Another quote mint, and a pool that did not graduate, whose creator has a rate of its own.
exotic : pamm_total_fee_bps no_tables (pool_with 9 420_000_000_000 1_000 false 0) ≡ 30
unfolding pamm_total_fee_bps total_bps pamm_fee_tier pool_with schedules_of or_dear schedule_for
    is_sol_like_quote tier_for pamm_market_cap_lamports tiers_of default_tiers tier_of_row
    with_creator_bps dearest find_tier
exotic = refl

own_rate :
    pamm_total_fee_bps no_tables (pool_with sol_native_mint 420_000_000_000 1_000 true 40) ≡ 70
unfolding pamm_total_fee_bps total_bps pamm_fee_tier pool_with schedules_of or_dear schedule_for
    is_sol_like_quote tier_for pamm_market_cap_lamports tiers_of default_tiers tier_of_row
    with_creator_bps dearest find_tier
own_rate = refl
