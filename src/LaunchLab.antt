-- ===== src/LaunchLab.antt =====
-- quote/launchlab.rs: the Raydium LaunchLab bonding curve, exact input.
mod Tests
pub mod Laws
use flow_trades_solana.Base.{
  ℕ, ◌+◌, ◌-◌, Bool, Option, none, some, ◌||◌, ◌&&◌, not, ltb, ◌==◌, ◌>>=◌, ◌>>◌, refuse_if,
  checked_mul, checked_add, checked_sub, checked_div, checked_add_u64, to_u64, div_ceil,
}

abbrev pub fee_rate_denominator : ℕ
fee_rate_denominator = 1_000_000

pub record LaunchLabCurve : Type 0 where
  pub status : ℕ
  pub curve_type : ℕ
  pub virtual_base : ℕ
  pub virtual_quote : ℕ
  pub real_base : ℕ
  pub real_quote : ℕ
  pub total_base_sell : ℕ
  pub total_quote_fund_raising : ℕ
  pub protocol_fee_rate : ℕ
  pub platform_fee_rate : ℕ
  pub creator_fee_rate : ℕ

pub record LaunchLabQuote : Type 0 where
  pub amount_out : ℕ
  pub fee : ℕ

ceil_fee : ℕ → ℕ → Option ℕ
ceil_fee amount rate = do
  product ← checked_mul amount rate
  to_u64 (div_ceil product fee_rate_denominator)

pub total_fee : LaunchLabCurve → ℕ → Option ℕ
unfolding ceil_fee
total_fee c quote_amount = do
  shared ← checked_add_u64 c.protocol_fee_rate c.platform_fee_rate
  rate ← checked_add_u64 shared c.creator_fee_rate
  ceil_fee quote_amount rate

pub quotable : LaunchLabCurve → Bool
quotable c = c.status == 0 && c.curve_type == 0 && ltb c.real_base c.virtual_base

-- The division by an empty curve, where the source panics, is `none` too.
pub buy_exact_in : LaunchLabCurve → ℕ → Option LaunchLabQuote
unfolding quotable
buy_exact_in c quote_in = do
  refuse_if (not (quotable c) || quote_in == 0)
  fee ← total_fee c quote_in
  less ← checked_sub quote_in fee
  raised ← checked_add_u64 c.real_quote less
  refuse_if (ltb c.total_quote_fund_raising raised)
  let in_res = c.virtual_quote + c.real_quote
  let out_res = c.virtual_base - c.real_base
  product ← checked_mul out_res less
  sum ← checked_add in_res less
  wide ← checked_div product sum
  out ← to_u64 wide
  refuse_if (out == 0)
  sold ← checked_add_u64 c.real_base out
  refuse_if (ltb c.total_base_sell sold)
  some (record { amount_out = out; fee = fee })

pub sell_exact_in : LaunchLabCurve → ℕ → Option LaunchLabQuote
unfolding quotable
sell_exact_in c base_in = do
  refuse_if (not (quotable c) || base_in == 0 || ltb c.real_base base_in)
  let in_res = c.virtual_base - c.real_base
  let out_res = c.virtual_quote + c.real_quote
  product ← checked_mul out_res base_in
  sum ← checked_add in_res base_in
  wide ← checked_div product sum
  gross ← to_u64 wide
  refuse_if (gross == 0 || ltb c.real_quote gross)
  fee ← total_fee c gross
  net ← checked_sub gross fee
  some (record { amount_out = net; fee = fee })
