-- ===== src/PoolState/Vaults.antt =====
-- pool/types.rs: the variants of `PoolState`: the pools priced by the balances of their vaults.
use flow_trades_solana.Base.{ℕ, Bool, List}
use flow_trades_solana.Base.Bytes.{Pubkey}
use flow_trades_solana.Dlmm.Pair.{DlmmPair}
use flow_trades_solana.MeteoraStd.{MeteoraStdReserves}
use flow_trades_solana.PoolState.Fees.{PammFlags}

pub record RaydiumV4 : Type 0 where
  pub amm_id : Pubkey
  pub authority : Pubkey
  pub coin_vault : Pubkey
  pub pc_vault : Pubkey
  pub coin_mint : Pubkey
  pub pc_mint : Pubkey
  pub swap_fee_numerator : ℕ
  pub swap_fee_denominator : ℕ
  pub need_take_pnl_coin : ℕ
  pub need_take_pnl_pc : ℕ
  pub status : ℕ
  pub pool_open_time : ℕ

pub record RaydiumCpmm : Type 0 where
  pub pool : Pubkey
  pub authority : Pubkey
  pub config : Pubkey
  pub token_0_vault : Pubkey
  pub token_1_vault : Pubkey
  pub token_0_mint : Pubkey
  pub token_1_mint : Pubkey
  pub observation : Pubkey
  pub trade_fee_bps : ℕ
  pub protocol_fees_0 : ℕ
  pub protocol_fees_1 : ℕ
  pub fund_fees_0 : ℕ
  pub fund_fees_1 : ℕ
  pub creator_fee_ppm : ℕ
  pub enable_creator_fee : Bool
  pub creator_fee_on : ℕ

pub record PumpFunAmm : Type 0 where
  pub pool : Pubkey
  pub base_mint : Pubkey
  pub quote_mint : Pubkey
  pub pool_base_vault : Pubkey
  pub pool_quote_vault : Pubkey
  pub coin_creator : Pubkey
  pub base_reserve : ℕ
  pub quote_reserve : ℕ
  pub protocol_fee_recipient : Pubkey
  pub buyback_accounts : List (Pubkey × Bool)
  pub base_supply : ℕ
  pub virtual_quote_reserve : ℕ
  pub pamm_flags : PammFlags

pub record Meteora : Type 0 where
  pub pool : Pubkey
  pub token_a_mint : Pubkey
  pub token_b_mint : Pubkey
  pub a_vault : Pubkey
  pub b_vault : Pubkey
  pub a_token_vault : Pubkey
  pub b_token_vault : Pubkey
  pub a_vault_lp_mint : Pubkey
  pub b_vault_lp_mint : Pubkey
  pub a_vault_lp : Pubkey
  pub b_vault_lp : Pubkey
  pub admin_token_a_fee : Pubkey
  pub admin_token_b_fee : Pubkey
  pub vault_program : Pubkey
  pub reserves : MeteoraStdReserves

pub record MeteoraDlmm : Type 0 where
  pub lb_pair : Pubkey
  pub bin_array_bitmap_extension : Pubkey
  pub reserve_x : Pubkey
  pub reserve_y : Pubkey
  pub token_x_mint : Pubkey
  pub token_y_mint : Pubkey
  pub oracle : Pubkey
  pub host_fee_in : Pubkey
  pub event_authority : Pubkey
  pub bin_arrays : List Pubkey
  pub pair : DlmmPair
