-- ===== src/Router/Venue.antt =====
-- quote/router.rs: which pricing a venue has, its default fee, its label, and a swap's compute units.
use Prim.Native.String.{String}
use flow_trades_solana.Base.{ℕ, ◌+◌, ◌-◌, ◌*◌, ◌%◌, ◌^◌, min, Bool, true, false, ◌||◌, u32_max}
use flow_trades_solana.PoolType.{PoolType}

abbrev default_fee_bps : ℕ
default_fee_bps = 25

abbrev pumpup_bonding_fee_bps : ℕ
pumpup_bonding_fee_bps = 100

pub is_constant_product : PoolType → Bool
is_constant_product PoolType.raydium_v4 = true
is_constant_product PoolType.raydium_cpmm = true
is_constant_product PoolType.pump_fun_amm = true
is_constant_product PoolType.saros = true
is_constant_product PoolType.dooar = true
is_constant_product PoolType.pumpup_bonding = true
is_constant_product PoolType.pumpup = true
is_constant_product PoolType.flux_beam = true
is_constant_product _ = false

pub is_clmm : PoolType → Bool
is_clmm PoolType.raydium_cl = true
is_clmm PoolType.orca = true
is_clmm PoolType.pancake_swap = true
is_clmm PoolType.byreal = true
is_clmm PoolType.defi_tuna_fusion = true
is_clmm _ = false

-- The types with a pricing of their own, in the last `matches!` of `is_quotable`.
has_own_pricing : PoolType → Bool
has_own_pricing PoolType.meteora_damm = true
has_own_pricing PoolType.raydium_lp = true
has_own_pricing PoolType.meteora = true
has_own_pricing PoolType.meteora_dlmm = true
has_own_pricing PoolType.pump_fun = true
has_own_pricing PoolType.meteora_dbc = true
has_own_pricing _ = false

pub is_quotable : PoolType → Bool
is_quotable t = is_constant_product t || is_clmm t || has_own_pricing t

pub label_for_pool_type : PoolType → String
label_for_pool_type PoolType.raydium_v4 = "Raydium V4"
label_for_pool_type PoolType.raydium_cpmm = "Raydium CPMM"
label_for_pool_type PoolType.raydium_cl = "Raydium CLMM"
label_for_pool_type PoolType.raydium_lp = "Raydium LP"
label_for_pool_type PoolType.pump_fun = "PumpFun"
label_for_pool_type PoolType.pump_fun_amm = "PumpFun AMM"
label_for_pool_type PoolType.meteora = "Meteora"
label_for_pool_type PoolType.meteora_dlmm = "Meteora DLMM"
label_for_pool_type PoolType.meteora_damm = "Meteora DAMM"
label_for_pool_type PoolType.meteora_dbc = "Meteora DBC"
label_for_pool_type PoolType.orca = "Orca"
label_for_pool_type PoolType.flux_beam = "FluxBeam"
label_for_pool_type PoolType.flash_trade = "FlashTrade"
label_for_pool_type PoolType.byreal = "Byreal"
label_for_pool_type PoolType.defi_tuna_fusion = "DefiTuna Fusion"
label_for_pool_type PoolType.defi_tuna_pools = "DefiTuna Pools"
label_for_pool_type PoolType.saros = "Saros"
label_for_pool_type PoolType.pancake_swap = "PancakeSwap"
label_for_pool_type PoolType.dooar = "Dooar"
label_for_pool_type PoolType.pumpup = "Pumpup"
label_for_pool_type PoolType.pumpup_bonding = "Pumpup Bonding"
label_for_pool_type _ = "Unknown"

pub fee_for_pool_type : PoolType → ℕ
fee_for_pool_type PoolType.unknown = default_fee_bps
fee_for_pool_type PoolType.raydium_v4 = 25
fee_for_pool_type PoolType.raydium_cpmm = 25
fee_for_pool_type PoolType.raydium_cl = default_fee_bps
fee_for_pool_type PoolType.raydium_lp = 25
fee_for_pool_type PoolType.pump_fun = default_fee_bps
fee_for_pool_type PoolType.pump_fun_amm = 30
fee_for_pool_type PoolType.meteora = 25
fee_for_pool_type PoolType.meteora_dlmm = default_fee_bps
fee_for_pool_type PoolType.meteora_damm = 25
fee_for_pool_type PoolType.meteora_dbc = default_fee_bps
fee_for_pool_type PoolType.orca = default_fee_bps
fee_for_pool_type PoolType.flux_beam = 25
fee_for_pool_type PoolType.flash_trade = default_fee_bps
fee_for_pool_type PoolType.byreal = default_fee_bps
fee_for_pool_type PoolType.defi_tuna_fusion = default_fee_bps
fee_for_pool_type PoolType.defi_tuna_pools = default_fee_bps
fee_for_pool_type PoolType.saros = 25
fee_for_pool_type PoolType.pancake_swap = default_fee_bps
fee_for_pool_type PoolType.dooar = 25
fee_for_pool_type PoolType.pumpup = 100
fee_for_pool_type PoolType.pumpup_bonding = pumpup_bonding_fee_bps

units_per_step : PoolType → ℕ
units_per_step PoolType.byreal = 20_000
units_per_step PoolType.orca = 9_000
units_per_step _ = 11_000

-- On `u32`: the product wraps around, the sum saturates.
pub clmm_swap_compute_units : PoolType → (steps : ℕ) → ℕ
clmm_swap_compute_units t steps = min (150_000 + units_per_step t * (steps - 1) % 2 ^ 32) u32_max
