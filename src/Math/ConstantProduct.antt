-- ===== src/Math/ConstantProduct.antt =====
-- quote/math.rs: `compute_constant_product_out`, `compute_constant_product_in` and
-- `compute_fee_amount`.
mod Tests
pub mod Laws
use flow_trades_solana.Base.{
  ℕ, ◌+◌, ◌-◌, ◌*◌, ◌/◌, min, Option, some, ◌||◌, ltb, leb, ◌==◌, ◌>>=◌, ◌>>◌, refuse_if,
  checked_mul, checked_add, checked_sub, checked_div, u64_max,
}

pub compute_constant_product_out : ℕ → ℕ → ℕ → ℕ → Option ℕ
compute_constant_product_out reserve_in reserve_out amount_in fee_bps = do
  refuse_if (reserve_in == 0 || reserve_out == 0 || amount_in == 0)
  let fee = min fee_bps 10_000
  amount_in_after_fee ← checked_mul amount_in (10_000 - fee)
  numerator ← checked_mul reserve_out amount_in_after_fee
  scaled ← checked_mul reserve_in 10_000
  denominator ← checked_add scaled amount_in_after_fee
  refuse_if (denominator == 0)
  let out = numerator / denominator
  refuse_if (ltb u64_max out)
  some out

pub compute_fee_amount : ℕ → ℕ → ℕ
compute_fee_amount amount_in fee_bps = amount_in * min fee_bps 10_000 / 10_000

pub compute_constant_product_in : ℕ → ℕ → ℕ → ℕ → Option ℕ
compute_constant_product_in reserve_in reserve_out amount_out fee_bps = do
  refuse_if (reserve_in == 0 || reserve_out == 0 || amount_out == 0)
  let fee = min fee_bps 10_000
  refuse_if (fee == 10_000)
  refuse_if (leb reserve_out amount_out)
  product ← checked_mul reserve_in amount_out
  numerator ← checked_mul product 10_000
  left ← checked_sub reserve_out amount_out
  denominator ← checked_mul left (10_000 - fee)
  refuse_if (denominator == 0)
  padded ← checked_add numerator (denominator - 1)
  result ← checked_div padded denominator
  refuse_if (ltb u64_max result)
  some result
