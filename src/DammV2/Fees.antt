-- ===== src/DammV2/Fees.antt =====
-- quote/damm_v2.rs: `DammFees`, `fee_in_period` and `pow_q64`. `none` stands for `None`, and for the
-- panics of the source: a 256-bit overflow, and a division by a zero reference amount. Reading the
-- account's bytes (`parse`) is not modelled.
mod Tests
pub mod Laws
use flow_trades_solana.Base.{
  ℕ, zero, suc, ◌+◌, ◌-◌, ◌*◌, ◌/◌, ◌%◌, ◌^◌, min, Bool, true, false, Option, none, some, ◌||◌,
  ◌&&◌, not, ltb, leb, ◌==◌, if◌then◌else◌, ◌>>=◌, ◌>>◌, refuse_if, fit, checked_mul, checked_sub,
  checked_div, checked_mul_u64, checked_add_u64, saturating_add_u64, to_u64, u64_max, u128_max,
  div_ceil,
}
use flow_trades_solana.DammV2.Price.{fee_denominator, mul_div}

abbrev pub max_fee_numerator_v0 : ℕ
max_fee_numerator_v0 = 500_000_000

abbrev pub max_fee_numerator_v1 : ℕ
max_fee_numerator_v1 = 990_000_000

abbrev pub basis_point_max : ℕ
basis_point_max = 10_000

abbrev pub one_q64 : ℕ
one_q64 = 2 ^ 64

abbrev pub u256_max : ℕ
u256_max = 2 ^ 256 - 1

pub record DammFees : Type 0 where
  pub cliff_fee_numerator : ℕ
  pub fee_scheduler_mode : ℕ
  pub number_of_period : ℕ
  pub period_frequency : ℕ
  pub reduction_factor : ℕ
  pub dynamic_fee_initialized : Bool
  pub variable_fee_control : ℕ
  pub bin_step : ℕ
  pub volatility_accumulator : ℕ
  pub init_sqrt_price : ℕ
  pub fee_version : ℕ

pub factor_lo : DammFees → ℕ
factor_lo f = f.period_frequency % 2 ^ 32

pub factor_hi : DammFees → ℕ
factor_hi f = f.period_frequency / 2 ^ 32

pub max_fee_numerator : DammFees → ℕ
max_fee_numerator f = if f.fee_version == 0 then max_fee_numerator_v0 else max_fee_numerator_v1

-- A product of two Q64.64 numbers, rounded down.
pub mul_q64 : ℕ → ℕ → Option ℕ
mul_q64 a b = do p ← checked_mul a b; some (p / 2 ^ 64)

-- The loop over the bits of the exponent, `bits` of them left.
pub pow_loop : ℕ → ℕ → ℕ → ℕ → Option ℕ
pow_loop zero exp result squared = some result
pow_loop (suc bits) exp result squared = do
  next ← if exp % 2 == 1 then mul_q64 result squared else some result
  square ← mul_q64 squared squared
  pow_loop bits (exp / 2) next square

pub pow_q64 : ℕ → ℕ → Option ℕ
pow_q64 base exp = if exp == 0 then some one_q64 else do
  refuse_if (leb one_q64 base || leb 0x80000 exp)
  result ← pow_loop 19 exp one_q64 base
  refuse_if (result == 0)
  some result

pub fee_in_period : ℕ → ℕ → ℕ → Option ℕ
fee_in_period cliff reduction_factor period = if reduction_factor == 0 then some cliff else do
  base ← checked_sub one_q64 (reduction_factor * 2 ^ 64 / basis_point_max)
  result ← pow_q64 base period
  scaled ← checked_mul result cliff
  to_u64 (scaled / 2 ^ 64)

pub scheduled_fee : DammFees → ℕ → Bool → Option ℕ
scheduled_fee f elapsed exponential =
    let period = min elapsed f.number_of_period in
    if exponential
    then fee_in_period f.cliff_fee_numerator f.reduction_factor period
    else checked_mul_u64 f.reduction_factor period >>= checked_sub f.cliff_fee_numerator

pub rate_limiter_applies : DammFees → ℕ → ℕ → Bool → Bool
rate_limiter_applies f current_point activation_point a_to_b =
    let unset =
      f.reduction_factor == 0 && factor_lo f == 0 && factor_hi f == 0 && f.number_of_period == 0 in
    not unset
    && f.fee_scheduler_mode == 2
    && not a_to_b
    && leb activation_point current_point
    && leb current_point (activation_point + factor_lo f)

to_numerator : ℕ → ℕ
to_numerator bps = bps * fee_denominator / basis_point_max

-- The fee of the whole input, times the denominator.
limited_fee : (c reference inc max_fee max_index over : ℕ) → ℕ
limited_fee c reference inc max_fee max_index over =
    let a = over / reference in
    let b = over % reference in
    if ltb a max_index
    then reference * (c + c * a + inc * a * (a + 1) / 2) + b * (c + inc * (a + 1))
    else reference * (c + c * max_index + inc * max_index * (max_index + 1) / 2)
      + ((a - max_index) * reference + b) * max_fee

pub rate_limited_fee_numerator : DammFees → ℕ → Option ℕ
unfolding to_numerator limited_fee
rate_limited_fee_numerator f amount_in =
    let c = f.cliff_fee_numerator in
    let reference = f.reduction_factor in
    if leb amount_in reference then some c else do
      let max_fee = to_numerator (factor_hi f)
      let inc = to_numerator f.number_of_period
      room ← checked_sub max_fee c
      max_index ← checked_div room inc
      refuse_if (reference == 0)
      let fee_numerator = limited_fee c reference inc max_fee max_index (amount_in - reference)
      fee ← to_u64 (div_ceil fee_numerator fee_denominator)
      rate ← mul_div fee fee_denominator amount_in true
      to_u64 rate

-- The periods that a market-cap scheduler has passed.
market_cap_period : DammFees → ℕ → ℕ → ℕ → Option ℕ
market_cap_period f current_point activation_point sqrt_price = do
  expiry ← checked_add_u64 activation_point (factor_hi f)
  if ltb expiry current_point || ltb current_point activation_point
      then some f.number_of_period
      else if leb sqrt_price f.init_sqrt_price
      then some 0
      else do
        refuse_if (f.init_sqrt_price == 0 || factor_lo f == 0)
        let passed =
            (sqrt_price - f.init_sqrt_price) * basis_point_max / f.init_sqrt_price / factor_lo f
        some (min passed f.number_of_period)

time_period : DammFees → ℕ → ℕ → ℕ
time_period f current_point activation_point =
    if ltb current_point activation_point
    then f.number_of_period
    else (current_point - activation_point) / f.period_frequency

-- The modes: 0 and 1 by time, 2 the rate limiter, 3 and 4 by market cap.
pub base_fee_numerator : DammFees → ℕ → ℕ → Bool → ℕ → ℕ → Option ℕ
base_fee_numerator f current_point activation_point a_to_b amount_in sqrt_price =
    if f.fee_scheduler_mode == 0 || f.fee_scheduler_mode == 1
    then (if f.period_frequency == 0
        then some f.cliff_fee_numerator
        else scheduled_fee f (time_period f current_point activation_point)
            (f.fee_scheduler_mode == 1))
    else if f.fee_scheduler_mode == 2
    then (if rate_limiter_applies f current_point activation_point a_to_b
        then rate_limited_fee_numerator f amount_in
        else some f.cliff_fee_numerator)
    else if f.fee_scheduler_mode == 3 || f.fee_scheduler_mode == 4
    then (market_cap_period f current_point activation_point sqrt_price >>= λ period.
        scheduled_fee f period (f.fee_scheduler_mode == 4))
    else none

pub variable_fee_numerator : DammFees → Option ℕ
variable_fee_numerator f = if not f.dynamic_fee_initialized then some 0 else do
  let vfa_bin = min (f.volatility_accumulator * f.bin_step) u128_max
  square ← fit u256_max (vfa_bin * vfa_bin)
  v ← fit u256_max (square * f.variable_fee_control)
  padded ← fit u256_max (v + 99_999_999_999)
  some (min (padded / 100_000_000_000) u64_max)

pub total_fee_numerator : DammFees → ℕ → ℕ → Bool → ℕ → ℕ → Option ℕ
total_fee_numerator f current_point activation_point a_to_b amount_in sqrt_price = do
  base ← base_fee_numerator f current_point activation_point a_to_b amount_in sqrt_price
  variable ← variable_fee_numerator f
  some (min (saturating_add_u64 base variable) (max_fee_numerator f))
