-- ===== src/Math/Clmm.antt =====
-- quote/math.rs: `compute_clmm_output`, `compute_clmm_input`, `virtual_reserves` and the loop of
-- `compute_clmm_output_multi_tick`.
mod Tests
pub mod Laws
pub mod MultiTick
use flow_trades_solana.Base.{
  ℕ, ◌+◌, ◌-◌, ◌*◌, ◌/◌, ◌%◌, ◌^◌, ◌<◌, zero, suc, min, Bool, true, false, ◌&&◌, List, Option, none,
  some, ◌||◌, ltb, leb, ◌==◌, if◌then◌else◌, ◌>>=◌, ◌>>◌, refuse_if, checked_mul, checked_add,
  checked_sub, checked_div, u64_max, get_elem?, length,
}
use flow_trades_solana.Base.Int.{ℤ}

abbrev pub q64 : ℕ
q64 = 2 ^ 64

-- (reserve_in, reserve_out)
pub virtual_reserves : ℕ → ℕ → Bool → Option (ℕ × ℕ)
virtual_reserves sqrt_price liquidity a_to_b = do
  scaled_a ← checked_mul liquidity q64
  reserve_a ← checked_div scaled_a sqrt_price
  scaled_b ← checked_mul liquidity sqrt_price
  reserve_b ← checked_div scaled_b q64
  some (if a_to_b then (reserve_a, reserve_b) else (reserve_b, reserve_a))

-- The two branches of `compute_clmm_output` exchange the reserves.
pub curve_out : ℕ → ℕ → ℕ → Option ℕ
curve_out reserve_in reserve_out amount_after_fee = do
  new_reserve_in ← checked_add reserve_in amount_after_fee
  product ← checked_mul reserve_out reserve_in
  new_reserve_out ← checked_div product new_reserve_in
  out ← checked_sub reserve_out new_reserve_out
  refuse_if (ltb u64_max out)
  some out

pub compute_clmm_output : ℕ → ℕ → ℕ → ℕ → Bool → Option ℕ
compute_clmm_output sqrt_price liquidity amount_in fee_bps a_to_b = do
  refuse_if (sqrt_price == 0 || liquidity == 0 || amount_in == 0)
  let fee = min fee_bps 10_000
  refuse_if (fee == 10_000)
  scaled ← checked_mul amount_in (10_000 - fee)
  amount_after_fee ← checked_div scaled 10_000
  refuse_if (amount_after_fee == 0)
  scaled_a ← checked_mul liquidity q64
  reserve_a ← checked_div scaled_a sqrt_price
  scaled_b ← checked_mul liquidity sqrt_price
  reserve_b ← checked_div scaled_b q64
  refuse_if (reserve_a == 0 || reserve_b == 0)
  if a_to_b
      then curve_out reserve_a reserve_b amount_after_fee
      else curve_out reserve_b reserve_a amount_after_fee

-- The input that the curve asks for `amount_out`, before the fee.
curve_in : ℕ → ℕ → ℕ → Option ℕ
curve_in reserve_in reserve_out amount_out = do
  refuse_if (leb reserve_out amount_out)
  denom ← checked_sub reserve_out amount_out
  refuse_if (denom == 0)
  num ← checked_mul reserve_in amount_out
  padded ← checked_add num (denom - 1)
  checked_div padded denom

pub compute_clmm_input : ℕ → ℕ → ℕ → ℕ → Bool → Option ℕ
compute_clmm_input sqrt_price liquidity amount_out fee_bps a_to_b = do
  refuse_if (sqrt_price == 0 || liquidity == 0 || amount_out == 0)
  let fee = min fee_bps 10_000
  refuse_if (fee == 10_000)
  scaled_a ← checked_mul liquidity q64
  reserve_a ← checked_div scaled_a sqrt_price
  scaled_b ← checked_mul liquidity sqrt_price
  reserve_b ← checked_div scaled_b q64
  refuse_if (reserve_a == 0 || reserve_b == 0)
  pre_fee_in ←
      if a_to_b
      then curve_in reserve_a reserve_b amount_out
      else curve_in reserve_b reserve_a amount_out
  fee_factor_den ← checked_sub 10_000 fee
  refuse_if (fee_factor_den == 0)
  num ← checked_mul pre_fee_in 10_000
  padded ← checked_add num (fee_factor_den - 1)
  amount_in ← checked_div padded fee_factor_den
  refuse_if (ltb u64_max amount_in)
  some amount_in
