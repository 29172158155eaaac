-- ===== src/ObservedFees.antt =====
-- stream/observed_fees.rs: the fee implied by a constant-product swap.
mod Tests
pub mod Laws
pub mod Cache
use flow_trades_solana.Base.{
  ℕ, ◌-◌, ◌/◌, ◌*◌, Option, none, some, ◌||◌, ltb, leb, ◌==◌, if◌then◌else◌, ◌>>=◌, ◌>>◌, refuse_if,
  checked_mul, div_ceil, ◌%◌, ◌^◌,
}

pub implied_fee_ppm : (paid_in out r_in r_out : ℕ) → Option ℕ
implied_fee_ppm paid_in out r_in r_out = do
  refuse_if (paid_in == 0 || out == 0 || r_in == 0 || leb r_out out)
  product ← checked_mul out r_in
  let implied = product / (r_out - out)
  refuse_if (ltb paid_in implied)
  scaled ← checked_mul (paid_in - implied) 1_000_000
  let ppm = div_ceil scaled paid_in
  if leb ppm 500_000 then some ppm else none

-- `ppm.div_ceil(100) as u16`.
pub whole_bps : ℕ → ℕ
whole_bps ppm = div_ceil ppm 100 % 2 ^ 16
