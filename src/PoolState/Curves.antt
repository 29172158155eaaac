-- ===== src/PoolState/Curves.antt =====
-- pool/types.rs: the variants of `PoolState`: the pools on a curve of their own account.
use flow_trades_solana.Base.{ℕ}
use flow_trades_solana.Base.Bytes.{Pubkey}
use flow_trades_solana.DammV2.Fees.{DammFees}
use flow_trades_solana.Dbc.Config.{DbcCurve}
use flow_trades_solana.LaunchLab.{LaunchLabCurve}
use flow_trades_solana.PumpBonding.{PumpCurve}

pub record RaydiumLp : Type 0 where
  pub pool_state : Pubkey
  pub authority : Pubkey
  pub base_vault : Pubkey
  pub quote_vault : Pubkey
  pub base_mint : Pubkey
  pub quote_mint : Pubkey
  pub config_id : Pubkey
  pub platform_id : Pubkey
  pub creator : Pubkey
  pub curve : LaunchLabCurve

pub record PumpFun : Type 0 where
  pub global : Pubkey
  pub fee_account : Pubkey
  pub mint : Pubkey
  pub bonding_curve : Pubkey
  pub associated_bonding_curve : Pubkey
  pub event_authority : Pubkey
  pub creator : Pubkey
  pub curve : PumpCurve
  pub buyback_fee_recipient : Pubkey

pub record MeteoraDbc : Type 0 where
  pub pool : Pubkey
  pub config : Pubkey
  pub pool_authority : Pubkey
  pub base_vault : Pubkey
  pub quote_vault : Pubkey
  pub base_mint : Pubkey
  pub quote_mint : Pubkey
  pub curve : DbcCurve

pub record PumpupBonding : Type 0 where
  pub pool : Pubkey
  pub mint : Pubkey
  pub pool_token_account : Pubkey
  pub pumpup_fee : Pubkey
  pub virtual_sol : ℕ
  pub real_sol : ℕ
  pub pool_sol_reserves : ℕ
  pub pool_token_reserves : ℕ

pub record MeteoraDamm : Type 0 where
  pub pool : Pubkey
  pub token_a_vault : Pubkey
  pub token_b_vault : Pubkey
  pub token_a_mint : Pubkey
  pub token_b_mint : Pubkey
  pub liquidity : ℕ
  pub sqrt_price : ℕ
  pub sqrt_min_price : ℕ
  pub sqrt_max_price : ℕ
  pub token_a_amount : ℕ
  pub token_b_amount : ℕ
  pub fees : DammFees
  pub activation_point : ℕ
  pub activation_type : ℕ
  pub collect_fee_mode : ℕ
  pub pool_status : ℕ
