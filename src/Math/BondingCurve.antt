-- ===== src/Math/BondingCurve.antt =====
-- quote/math.rs: `compute_bonding_curve_out` and `compute_bonding_curve_in`.
mod Tests
pub mod Laws
use flow_trades_solana.Base.{
  ℕ, ◌+◌, ◌-◌, Option, some, ◌||◌, ltb, leb, ◌==◌, ◌>>=◌, ◌>>◌, refuse_if, checked_mul, checked_add,
  checked_sub, checked_div, u64_max,
}

pub compute_bonding_curve_out : ℕ → ℕ → ℕ → ℕ → ℕ → Option ℕ
compute_bonding_curve_out virtual_reserve_in virtual_reserve_out amount_in fee_num fee_den = do
  refuse_if (virtual_reserve_in == 0 || virtual_reserve_out == 0 || amount_in == 0)
  refuse_if (fee_den == 0)
  refuse_if (leb fee_den fee_num)
  kept ← checked_sub fee_den fee_num
  scaled ← checked_mul amount_in kept
  amount_after_fee ← checked_div scaled fee_den
  refuse_if (amount_after_fee == 0)
  numerator ← checked_mul virtual_reserve_out amount_after_fee
  denominator ← checked_add virtual_reserve_in amount_after_fee
  refuse_if (denominator == 0)
  out ← checked_div numerator denominator
  refuse_if (ltb u64_max out)
  some out

pub compute_bonding_curve_in : ℕ → ℕ → ℕ → ℕ → ℕ → Option ℕ
compute_bonding_curve_in virtual_reserve_in virtual_reserve_out amount_out fee_num fee_den = do
  refuse_if (virtual_reserve_in == 0 || virtual_reserve_out == 0 || amount_out == 0)
  refuse_if (fee_den == 0)
  refuse_if (leb fee_den fee_num)
  refuse_if (leb virtual_reserve_out amount_out)
  numerator ← checked_mul virtual_reserve_in amount_out
  denominator ← checked_sub virtual_reserve_out amount_out
  refuse_if (denominator == 0)
  padded ← checked_add numerator (denominator - 1)
  pre_fee_in ← checked_div padded denominator
  fee_factor_den ← checked_sub fee_den fee_num
  refuse_if (fee_factor_den == 0)
  amount_in_num ← checked_mul pre_fee_in fee_den
  padded_in ← checked_add amount_in_num (fee_factor_den - 1)
  amount_in ← checked_div padded_in fee_factor_den
  refuse_if (ltb u64_max amount_in)
  some amount_in
