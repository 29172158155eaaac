-- ===== src/PoolState/Swaps.antt =====
-- pool/types.rs: the variants of `PoolState`: the forks of the token swap, and the pools with few fields.
use flow_trades_solana.Base.{ℕ}
use flow_trades_solana.Base.Bytes.{Pubkey}
use flow_trades_solana.PoolState.Fees.{SplSwapFees}

pub record FluxBeam : Type 0 where
  pub pool : Pubkey
  pub authority : Pubkey
  pub token_a_vault : Pubkey
  pub token_b_vault : Pubkey
  pub pool_mint : Pubkey
  pub fee_account : Pubkey
  pub token_a_mint : Pubkey
  pub token_b_mint : Pubkey
  pub pool_token_program : Pubkey
  pub fees : SplSwapFees

pub record FlashTrade : Type 0 where
  pub pool : Pubkey
  pub oracle : Pubkey
  pub custody : Pubkey
  pub token_mint : Pubkey

pub record DefiTunaPools : Type 0 where
  pub pool : Pubkey
  pub token_vault_a : Pubkey
  pub token_vault_b : Pubkey
  pub token_mint_a : Pubkey
  pub token_mint_b : Pubkey

pub record Saros : Type 0 where
  pub pool : Pubkey
  pub authority : Pubkey
  pub token_a_vault : Pubkey
  pub token_b_vault : Pubkey
  pub pool_mint : Pubkey
  pub fee_account : Pubkey
  pub token_a_mint : Pubkey
  pub token_b_mint : Pubkey
  pub fees : SplSwapFees

pub record Dooar : Type 0 where
  pub pool : Pubkey
  pub authority : Pubkey
  pub token_a_vault : Pubkey
  pub token_b_vault : Pubkey
  pub pool_mint : Pubkey
  pub fee_account : Pubkey
  pub token_a_mint : Pubkey
  pub token_b_mint : Pubkey
  pub fees : SplSwapFees

pub record Pumpup : Type 0 where
  pub pool : Pubkey
  pub token_a_mint : Pubkey
  pub token_b_mint : Pubkey
  pub token_a_vault : Pubkey
  pub token_b_vault : Pubkey
  pub fee_recipient : Pubkey
  pub fee_recipient2 : Pubkey
  pub token_a_reserve : ℕ
  pub token_b_reserve : ℕ
