-- ===== src/Dbc/Config.antt =====
-- quote/dbc.rs: the pool and its configuration.
use flow_trades_solana.Base.{ℕ, Bool, List}

abbrev pub fee_denominator : ℕ
fee_denominator = 1_000_000_000

abbrev pub max_fee_numerator : ℕ
max_fee_numerator = 990_000_000

pub record DbcConfig : Type 0 where
  pub collect_fee_mode : ℕ
  pub activation_type : ℕ
  pub migration_quote_threshold : ℕ
  pub migration_sqrt_price : ℕ
  pub sqrt_start_price : ℕ
  -- (sqrt_price, liquidity)
  pub curve : List (ℕ × ℕ)
  pub cliff_fee_numerator : ℕ
  pub first_factor : ℕ
  pub second_factor : ℕ
  pub third_factor : ℕ
  pub base_fee_mode : ℕ
  pub dynamic_fee : Bool
  pub variable_fee_control : ℕ
  pub bin_step : ℕ

pub record DbcCurve : Type 0 where
  pub sqrt_price : ℕ
  pub base_reserve : ℕ
  pub quote_reserve : ℕ
  pub activation_point : ℕ
  pub is_migrated : Bool
  pub volatility_accumulator : ℕ
  pub config : DbcConfig

pub record DbcQuote : Type 0 where
  pub amount_out : ℕ
  pub fee : ℕ
  pub next_sqrt_price : ℕ
