-- ===== src/Fetcher.antt =====
-- pool/fetcher.rs: the parse of a pool's account without other accounts, by its type. What the other accounts add, and
-- their reading by RPC, is not modelled. The derivations of addresses are a library's, parameters here.
mod Tests
pub mod Laws
pub mod Reading
pub mod Fees
pub mod Raydium
pub mod Meteora
pub mod Whirlpools
pub mod Swaps
use flow_trades_solana.Base.{ℕ, Bool, true, false, List}
use flow_trades_solana.Base.Bytes.{Pubkey}
use flow_trades_solana.PoolType
use flow_trades_solana.PoolType.{PoolType}
use flow_trades_solana.PoolState.{PoolState}
use flow_trades_solana.Byreal.Inputs.{Account}
use flow_trades_solana.Execution.{err}
use Reading.{Parsed, refused}
use Raydium.{parse_raydium_v4, parse_raydium_cpmm, parse_raydium_clmm, parse_raydium_lp}
use Meteora.{parse_meteora_dlmm, parse_meteora_damm}
use Whirlpools.{parse_orca, parse_byreal, parse_defituna_fusion, parse_pancakeswap}
use Swaps.{
  parse_fluxbeam, parse_saros, parse_dooar, parse_flash_trade, parse_defituna_pools, parse_pumpup,
}

pub is_sync_parseable : PoolType → Bool
is_sync_parseable PoolType.raydium_v4 = true
is_sync_parseable PoolType.raydium_cpmm = true
is_sync_parseable PoolType.raydium_cl = true
is_sync_parseable PoolType.raydium_lp = true
is_sync_parseable PoolType.meteora_dlmm = true
is_sync_parseable PoolType.meteora_damm = true
is_sync_parseable PoolType.orca = true
is_sync_parseable PoolType.flux_beam = true
is_sync_parseable PoolType.flash_trade = true
is_sync_parseable PoolType.byreal = true
is_sync_parseable PoolType.defi_tuna_fusion = true
is_sync_parseable PoolType.defi_tuna_pools = true
is_sync_parseable PoolType.saros = true
is_sync_parseable PoolType.pancake_swap = true
is_sync_parseable PoolType.dooar = true
is_sync_parseable _ = false

module _ (find_program_address : (seeds : List (List ℕ)) → (program_id : Pubkey) → Pubkey × ℕ)
    (sponsored_price_account : List ℕ → Pubkey) where
  parse_account : PoolType → Pubkey → Account → Parsed PoolState
  parse_account PoolType.raydium_v4 pool a = parse_raydium_v4 find_program_address pool a
  parse_account PoolType.raydium_cpmm pool a = parse_raydium_cpmm find_program_address pool a
  parse_account PoolType.raydium_cl pool a = parse_raydium_clmm find_program_address pool a
  parse_account PoolType.raydium_lp pool a = parse_raydium_lp find_program_address pool a
  parse_account PoolType.meteora_dlmm pool a = parse_meteora_dlmm find_program_address pool a
  parse_account PoolType.meteora_damm pool a = parse_meteora_damm find_program_address pool a
  parse_account PoolType.orca pool a = parse_orca find_program_address pool a
  parse_account PoolType.flux_beam pool a = parse_fluxbeam find_program_address pool a
  parse_account PoolType.flash_trade pool a = parse_flash_trade pool a
  parse_account PoolType.byreal pool a = parse_byreal sponsored_price_account pool a
  parse_account PoolType.defi_tuna_fusion pool a = parse_defituna_fusion pool a
  parse_account PoolType.defi_tuna_pools pool a = parse_defituna_pools pool a
  parse_account PoolType.saros pool a = parse_saros find_program_address pool a
  parse_account PoolType.pancake_swap pool a = parse_pancakeswap pool a
  parse_account PoolType.dooar pool a = parse_dooar find_program_address pool a
  parse_account PoolType.pumpup pool a = parse_pumpup pool a
  parse_account _ pool a = err refused

  pub parse_pool_state_from_bytes :
      PoolType → (pool_address : Pubkey) → List ℕ → (owner : Pubkey) → Parsed PoolState
  parse_pool_state_from_bytes t pool d owner =
      parse_account t pool (record { owner = owner; bytes = d })
