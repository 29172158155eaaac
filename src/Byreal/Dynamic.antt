-- ===== src/Byreal/Dynamic.antt =====
-- quote/byreal_fee.rs: the fee that follows the oracle, computed from the state before a swap.
mod Tests
pub mod Laws
use flow_trades_solana.Base.{
  ℕ, ◌+◌, ◌-◌, ◌*◌, ◌/◌, ◌^◌, Bool, true, false, not, Option, none, some, ◌||◌, ◌&&◌, ltb, leb,
  ◌==◌, if◌then◌else◌, ◌>>=◌, ◌>>◌, refuse_if, fit, checked_add, checked_mul, u32_max, u128_max,
  to_u64,
}
use flow_trades_solana.Base.Int.{ℤ, pos, negsuc, pos_part, neg_part, ◌+ℤ◌, ◌-ℤ◌, leb_ℤ, ltb_ℤ}
use flow_trades_solana.Clmm.Wide.{mul_div_floor, mul_div_ceil, to_u128}
use flow_trades_solana.Clmm.Price.{q64}
use flow_trades_solana.Byreal.{ByrealFee, fee_rate_denominator, token1_is_quote}

abbrev pub max_pyth_age_seconds : ℕ
max_pyth_age_seconds = 3_600

pub record PythPrice : Type 0 where
  pub price : ℤ
  pub exponent : ℤ
  pub publish_time : ℤ

pub record DynInputs : Type 0 where
  pub vault_0 : ℕ
  pub vault_1 : ℕ
  pub price_0 : PythPrice
  pub price_1 : PythPrice

-- A result of checked arithmetic on `i32` and `i64`.
abbrev fit_signed : (width : ℕ) → ℤ → Option ℤ
fit_signed w i =
    if leb_ℤ (negsuc (2 ^ (w - 1) - 1)) i && ltb_ℤ i (pos (2 ^ (w - 1))) then some i else none

-- `10u128.checked_pow(n)`.
abbrev checked_pow_10 : ℕ → Option ℕ
checked_pow_10 n = if leb n 38 then some (10 ^ n) else none

-- Numerator and denominator of the price of token 0 in token 1.
index_ratio : (a b : ℕ) → (net_exp : ℤ) → Option (ℕ × ℕ)
index_ratio a b (pos n) = do scale ← checked_pow_10 n; num ← checked_mul a scale; some (num, b)
index_ratio a b (negsuc n) = do
  scale ← checked_pow_10 (n + 1)
  den ← checked_mul b scale
  some (a, den)

-- The prices are positive at the one call.
pub price_index : (p0 p1 : PythPrice) → (decimals_0 decimals_1 : ℕ) → Option ℕ
price_index p0 p1 decimals_0 decimals_1 = do
  steps ← fit_signed 32 (p0.exponent -ℤ p1.exponent)
  net_exp ← fit_signed 32 (steps +ℤ (pos decimals_1 -ℤ pos decimals_0))
  (num, den) ← index_ratio (pos_part p0.price) (pos_part p1.price) net_exp
  mul_div_floor num q64 den

quote_from_base : (base price_x64 : ℕ) → (quote_is_token1 : Bool) → Option ℕ
quote_from_base base price_x64 quote_is_token1 =
    if price_x64 == 0
    then none
    else if quote_is_token1
    then mul_div_floor base price_x64 q64
    else mul_div_floor base q64 price_x64

-- `a.abs_diff(b)`.
abbrev pub apart : ℕ → ℕ → ℕ
apart a b = (a - b) + (b - a)

pub arbitrage_fee : (p_0 p_index buffer_ppm fee_base : ℕ) → Option ℕ
arbitrage_fee p_0 p_index buffer_ppm fee_base = do
  refuse_if (p_index == 0)
  diff_ppm ← mul_div_ceil (apart p_0 p_index) fee_rate_denominator p_index
  let free = buffer_ppm + fee_base
  if leb diff_ppm free then some 0 else fit u32_max (diff_ppm - free)

-- Only a swap that deepens the imbalance pays.
deepens : (quote_value_of_base quote_balance : ℕ) → (is_buying_base : Bool) → Bool
deepens value balance is_buying_base =
    (ltb balance value && not is_buying_base) || (ltb value balance && is_buying_base)

imbalance_fee : (quote_value_of_base quote_balance base x : ℕ) → (is_buying_base : Bool) → Option ℕ
imbalance_fee value balance base x is_buying_base = do
  total ← checked_add value balance
  if total == 0 || not (deepens value balance is_buying_base) then some 0 else (do
    imbalance_ppm ← mul_div_ceil (apart value balance) fee_rate_denominator total
    let x_ppm = x * 10_000
    if leb imbalance_ppm x_ppm
        then some 0
        else (mul_div_ceil (imbalance_ppm - x_ppm) base 10 >>= fit u32_max))

-- A price that the program takes: positive, and not stale.
pub usable : PythPrice → (now : ℤ) → Option (Unit {0})
usable p now = do
  refuse_if (leb_ℤ p.price (pos 0))
  oldest ← fit_signed 64 (now -ℤ pos max_pyth_age_seconds)
  refuse_if (ltb_ℤ p.publish_time oldest)

-- The pool's price of token 0, in 128 bits.
pub pool_price : (sqrt_price_x64 : ℕ) → Option ℕ
pool_price sqrt_price_x64 = to_u128 (sqrt_price_x64 * sqrt_price_x64 / 2 ^ 64)

-- The trade size in whole units of the quote token, of which only the conversion can fail.
trade_size : ByrealFee → (p_0 amount : ℕ) → (input_is_quote : Bool) → Option ℕ
trade_size f p_0 amount input_is_quote = do
  let token1_quote = token1_is_quote f
  quote_amount ← if input_is_quote then some amount else quote_from_base amount p_0 token1_quote
  unit ← checked_pow_10 (if token1_quote then f.decimals_1 else f.decimals_0)
  to_u64 (quote_amount / unit)

-- The value of the base vault in the quote token, and the quote vault.
balances : DynInputs → (p_0 : ℕ) → (token1_quote : Bool) → Option (ℕ × ℕ)
balances inp p_0 token1_quote =
    if token1_quote
    then (quote_from_base inp.vault_0 p_0 true >>= λ v. some (v, inp.vault_1))
    else (quote_from_base inp.vault_1 p_0 false >>= λ v. some (v, inp.vault_0))

-- The sum is of two `u32` in 64 bits.
pub dynamic_fee_rate :
    ByrealFee
    → (fee_base sqrt_price_x64 : ℕ) → DynInputs
    → (zero_for_one : Bool) → (amount : ℕ) → (now : ℤ) → Option ℕ
dynamic_fee_rate f fee_base sqrt_price_x64 inp zero_for_one amount now = do
  usable inp.price_0 now
  usable inp.price_1 now
  p_index ← price_index inp.price_0 inp.price_1 f.decimals_0 f.decimals_1
  p_0 ← pool_price sqrt_price_x64
  let input_is_quote = if token1_is_quote f then not zero_for_one else zero_for_one
  size ← trade_size f p_0 amount input_is_quote
  (value, balance) ← balances inp p_0 (token1_is_quote f)
  arbitrage ← arbitrage_fee p_0 p_index f.arbitrage_fee_buffer_ppm fee_base
  imbalance ← imbalance_fee value balance f.imbalance_fee_base f.imbalance_fee_x input_is_quote
  refuse_if (not (imbalance == 0))
  if ltb fee_rate_denominator (arbitrage + fee_base) then none else some (arbitrage + fee_base)
