-- ===== src/PoolState/Clmm.antt =====
-- pool/types.rs: the variants of `PoolState`: the pools with ticks.
use flow_trades_solana.Base.{ℕ}
use flow_trades_solana.Base.Bytes.{Pubkey}
use flow_trades_solana.Base.Int.{ℤ}
use flow_trades_solana.Byreal.{ByrealFee}
use flow_trades_solana.Clmm.Raydium.{RaydiumFeeExt}

pub record RaydiumClmm : Type 0 where
  pub pool : Pubkey
  pub amm_config : Pubkey
  pub observation : Pubkey
  pub token_vault_0 : Pubkey
  pub token_vault_1 : Pubkey
  pub tick_array_0 : Pubkey
  pub tick_array_1 : Pubkey
  pub tick_array_2 : Pubkey
  pub token_mint_0 : Pubkey
  pub token_mint_1 : Pubkey
  pub tick_current : ℤ
  pub tick_spacing : ℤ
  pub sqrt_price_x64 : ℕ
  pub liquidity : ℕ
  pub fee_rate : ℕ
  pub fee_ext : RaydiumFeeExt

pub record Orca : Type 0 where
  pub whirlpool : Pubkey
  pub token_vault_a : Pubkey
  pub token_vault_b : Pubkey
  pub oracle : Pubkey
  pub token_mint_a : Pubkey
  pub token_mint_b : Pubkey
  pub tick_current : ℤ
  pub tick_spacing : ℤ
  pub sqrt_price_x64 : ℕ
  pub liquidity : ℕ
  pub fee_rate : ℕ

pub record Byreal : Type 0 where
  pub pool : Pubkey
  pub amm_config : Pubkey
  pub token_vault_a : Pubkey
  pub token_vault_b : Pubkey
  pub observation : Pubkey
  pub token_mint_a : Pubkey
  pub token_mint_b : Pubkey
  pub tick_current : ℤ
  pub tick_spacing : ℤ
  pub sqrt_price_x64 : ℕ
  pub liquidity : ℕ
  pub fee_rate : ℕ
  pub fee : ByrealFee

pub record DefiTunaFusion : Type 0 where
  pub pool : Pubkey
  pub token_vault_a : Pubkey
  pub token_vault_b : Pubkey
  pub token_mint_a : Pubkey
  pub token_mint_b : Pubkey
  pub tick_spacing : ℕ
  pub tick_current_index : ℤ
  pub sqrt_price_x64 : ℕ
  pub liquidity : ℕ
  pub fee_rate : ℕ

pub record PancakeSwap : Type 0 where
  pub pool : Pubkey
  pub amm_config : Pubkey
  pub token_vault_a : Pubkey
  pub token_vault_b : Pubkey
  pub observation : Pubkey
  pub token_mint_a : Pubkey
  pub token_mint_b : Pubkey
  pub tick_current : ℤ
  pub tick_spacing : ℤ
  pub sqrt_price_x64 : ℕ
  pub liquidity : ℕ
  pub fee_rate : ℕ
