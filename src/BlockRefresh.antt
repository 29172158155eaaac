-- ===== src/BlockRefresh.antt =====
-- stream/block_refresh.rs: which pools carry their price in their own account.
pub mod Mirror
pub mod Refresh
use flow_trades_solana.Base.{Bool, true, false, ◌||◌}
use flow_trades_solana.PoolType
use flow_trades_solana.PoolType.{PoolType}

pub is_state_priced : PoolType → Bool
is_state_priced PoolType.raydium_cl = true
is_state_priced PoolType.orca = true
is_state_priced PoolType.pancake_swap = true
is_state_priced PoolType.byreal = true
is_state_priced PoolType.defi_tuna_fusion = true
is_state_priced PoolType.meteora_damm = true
is_state_priced PoolType.raydium_lp = true
is_state_priced PoolType.meteora_dlmm = true
is_state_priced PoolType.pump_fun = true
is_state_priced PoolType.meteora_dbc = true
is_state_priced _ = false

-- The types that a block's pass collects.
pub is_refreshed : PoolType → Bool
is_refreshed PoolType.meteora = true
is_refreshed PoolType.raydium_v4 = true
is_refreshed t = is_state_priced t
