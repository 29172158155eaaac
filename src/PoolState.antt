-- ===== src/PoolState.antt =====
-- pool/types.rs: `PoolState`, in a record for the fields of each variant.
pub mod Fees
pub mod Clmm
pub mod Curves
pub mod Vaults
pub mod Swaps
use flow_trades_solana.PoolState.Clmm.{RaydiumClmm, Orca, Byreal, DefiTunaFusion, PancakeSwap}
use flow_trades_solana.PoolState.Curves.{RaydiumLp, PumpFun, MeteoraDbc, PumpupBonding, MeteoraDamm}
use flow_trades_solana.PoolState.Vaults.{RaydiumV4, RaydiumCpmm, PumpFunAmm, Meteora, MeteoraDlmm}
use flow_trades_solana.PoolState.Swaps.{FluxBeam, FlashTrade, DefiTunaPools, Saros, Dooar, Pumpup}

pub data PoolState : Type 0 where
  raydium_v4 : RaydiumV4 → PoolState
  raydium_cpmm : RaydiumCpmm → PoolState
  raydium_clmm : RaydiumClmm → PoolState
  raydium_lp : RaydiumLp → PoolState
  pump_fun : PumpFun → PoolState
  pump_fun_amm : PumpFunAmm → PoolState
  meteora : Meteora → PoolState
  meteora_dlmm : MeteoraDlmm → PoolState
  meteora_damm : MeteoraDamm → PoolState
  meteora_dbc : MeteoraDbc → PoolState
  orca : Orca → PoolState
  flux_beam : FluxBeam → PoolState
  flash_trade : FlashTrade → PoolState
  byreal : Byreal → PoolState
  defi_tuna_fusion : DefiTunaFusion → PoolState
  defi_tuna_pools : DefiTunaPools → PoolState
  saros : Saros → PoolState
  pancake_swap : PancakeSwap → PoolState
  dooar : Dooar → PoolState
  pumpup : Pumpup → PoolState
  pumpup_bonding : PumpupBonding → PoolState
