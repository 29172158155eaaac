-- ===== src/Dbc/Fees.antt =====
-- quote/dbc.rs: the base fee, the volatility fee and their capped sum. `none` stands for `None` and
-- for the panic of the source's 256-bit type on overflow.
use flow_trades_solana.Base.{
  ℕ, zero, suc, ◌+◌, ◌-◌, ◌*◌, ◌/◌, ◌%◌, ◌^◌, ◌≤◌, ◌≡◌, min, Bool, true, false, Option, none, some,
  ◌||◌, ◌&&◌, not, ltb, leb, ◌==◌, if◌then◌else◌, ◌>>=◌, fit, checked_mul, checked_sub,
  checked_mul_u64, saturating_add_u64, to_u64, u64_max, arith, inl, inr, Option-cases,
}
use flow_trades_solana.DammV2.Fees.{mul_q64, one_q64, u256_max, basis_point_max}
use flow_trades_solana.Dbc.Config.{DbcCurve, max_fee_numerator}

-- `while e > 0`, by squaring; 64 rounds serve every 64-bit exponent.
power : ℕ → ℕ → ℕ → ℕ → Option ℕ
power zero e acc b = some acc
power (suc fuel) e acc b = elim (e == 0) [
  | true ↦ some acc
  | false ↦ (if e % 2 == 1 then mul_q64 acc b else some acc) >>= λ next.
      mul_q64 b b >>= λ square. power fuel (e / 2) next square
]

pub exponential_fee : ℕ → ℕ → ℕ → Option ℕ
unfolding power
exponential_fee cliff reduction period = if period == 0 then some cliff else (do
  base ← checked_sub one_q64 (reduction * 2 ^ 64 / basis_point_max)
  acc ← power 64 period one_q64 base
  scaled ← checked_mul acc cliff
  to_u64 (scaled / 2 ^ 64))

unfoldable pub base_fee_numerator : DbcCurve → ℕ → Bool → Option ℕ
base_fee_numerator s current_point to_base =
    let c = s.config in
    let elapsed = current_point - s.activation_point in
    if c.base_fee_mode == 0 || c.base_fee_mode == 1
    then (if c.second_factor == 0
        then some c.cliff_fee_numerator
        else (let period = min (elapsed / c.second_factor) c.first_factor in
            if c.base_fee_mode == 0
            then checked_mul_u64 period c.third_factor >>= checked_sub c.cliff_fee_numerator
            else exponential_fee c.cliff_fee_numerator c.third_factor period))
    else if c.base_fee_mode == 2
    then (if to_base && ltb 0 c.third_factor && ltb 0 c.first_factor && leb elapsed c.second_factor
        then none
        else some c.cliff_fee_numerator)
    else none

unfoldable pub variable_fee_numerator : DbcCurve → Option ℕ
variable_fee_numerator s = if not s.config.dynamic_fee then some 0 else (do
  let vb = s.volatility_accumulator * s.config.bin_step
  square ← fit u256_max (vb * vb)
  v ← fit u256_max (square * s.config.variable_fee_control)
  padded ← fit u256_max (v + 99_999_999_999)
  some (min (padded / 100_000_000_000) u64_max))

unfoldable pub fee_numerator : DbcCurve → ℕ → Bool → Option ℕ
fee_numerator s current_point to_base = do
  base ← base_fee_numerator s current_point to_base
  variable ← variable_fee_numerator s
  some (min (saturating_add_u64 base variable) max_fee_numerator)

pub fee_numerator-le :
    (s : DbcCurve) (current : ℕ) (to_base : Bool) {f : ℕ}
    → fee_numerator s current to_base ≡ some f
    → f ≤ max_fee_numerator
unfolding fee_numerator
fee_numerator-le s current to_base h = elim (Option-cases (base_fee_numerator s current to_base)) [
  | inl e ↦ ground arith
  | inr (b, e) ↦ elim (Option-cases (variable_fee_numerator s)) [
    | inl e1 ↦ ground arith
    | inr (v, e1) ↦ ground arith
  ]
]
