-- ===== src/PoolType.antt =====
-- pool/types.rs: `PoolType` and its names.
mod Tests
pub mod Laws
use Prim.Native.String.{String}
use text.Mathlib.Text
use flow_trades_solana.Base.{Bool, Option, none, some, List, [], ◌∷◌, if◌then◌else◌}

pub data PoolType : Type 0 where
  unknown : PoolType
  raydium_v4 : PoolType
  raydium_cpmm : PoolType
  raydium_cl : PoolType
  raydium_lp : PoolType
  pump_fun : PoolType
  pump_fun_amm : PoolType
  meteora : PoolType
  meteora_dlmm : PoolType
  meteora_damm : PoolType
  meteora_dbc : PoolType
  orca : PoolType
  flux_beam : PoolType
  flash_trade : PoolType
  byreal : PoolType
  defi_tuna_fusion : PoolType
  defi_tuna_pools : PoolType
  saros : PoolType
  pancake_swap : PoolType
  dooar : PoolType
  pumpup : PoolType
  pumpup_bonding : PoolType

-- `as_str`.
pub as_str : PoolType → String
as_str unknown = "UNKNOWN"
as_str raydium_v4 = "RAYDIUM_V4"
as_str raydium_cpmm = "RAYDIUM_CPMM"
as_str raydium_cl = "RAYDIUM_CL"
as_str raydium_lp = "RAYDIUM_LP"
as_str pump_fun = "PUMP_FUN"
as_str pump_fun_amm = "PUMP_FUN_AMM"
as_str meteora = "METEORA"
as_str meteora_dlmm = "METEORA_DLMM"
as_str meteora_damm = "METEORA_DAMM"
as_str meteora_dbc = "METEORA_DBC"
as_str orca = "ORCA"
as_str flux_beam = "FLUXBEAM"
as_str flash_trade = "FLASH_TRADE"
as_str byreal = "BYREAL"
as_str defi_tuna_fusion = "DEFITUNA_FUSION"
as_str defi_tuna_pools = "DEFITUNA_POOLS"
as_str saros = "SAROS"
as_str pancake_swap = "PANCAKESWAP"
as_str dooar = "DOOAR"
as_str pumpup = "PUMPUP"
as_str pumpup_bonding = "PUMPUP_BONDING"

-- The arms of `from_str_opt`, in their order.
abbrev arms : List (String × PoolType)
arms =
    ("UNKNOWN", unknown)
    ∷ ("RAYDIUM_V4", raydium_v4)
    ∷ ("RAYDIUM_CPMM", raydium_cpmm)
    ∷ ("RAYDIUM_CL", raydium_cl)
    ∷ ("RAYDIUM_LP", raydium_lp)
    ∷ ("PUMP_FUN", pump_fun)
    ∷ ("PUMP_FUN_AMM", pump_fun_amm)
    ∷ ("METEORA", meteora)
    ∷ ("METEORA_DLMM", meteora_dlmm)
    ∷ ("METEORA_DAMM", meteora_damm)
    ∷ ("METEORA_DBC", meteora_dbc)
    ∷ ("ORCA", orca)
    ∷ ("FLUXBEAM", flux_beam)
    ∷ ("FLASH_TRADE", flash_trade)
    ∷ ("BYREAL", byreal)
    ∷ ("DEFITUNA_FUSION", defi_tuna_fusion)
    ∷ ("DEFITUNA_POOLS", defi_tuna_pools)
    ∷ ("SAROS", saros)
    ∷ ("PANCAKESWAP", pancake_swap)
    ∷ ("DOOAR", dooar)
    ∷ ("PUMPUP", pumpup)
    ∷ ("PUMPUP_BONDING", pumpup_bonding)
    ∷ []

first_arm : String → List (String × PoolType) → Option PoolType
first_arm s [] = none
first_arm s ((name, t) ∷ rest) = if Text.◌==◌ s name then some t else first_arm s rest

pub from_str_opt : String → Option PoolType
from_str_opt s = first_arm s arms
