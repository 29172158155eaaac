-- ===== src/Byreal.antt =====
-- quote/byreal_fee.rs: the fee of a Byreal pool: the base rate with its decay, and the fields that they read.
mod Tests
pub mod Dynamic
pub mod Inputs
pub mod Laws
use flow_trades_solana.Base.{
  ℕ, zero, suc, ◌+◌, ◌-◌, ◌*◌, ◌/◌, ◌%◌, ◌^◌, max, Bool, not, List, Option, none, some, ◌||◌, ◌&&◌,
  ltb, ◌==◌, if◌then◌else◌, ◌>>=◌, fit, checked_sub, div_ceil, u32_max,
}
use flow_trades_solana.Base.Bytes.{Pubkey}
use flow_trades_solana.Base.Int.{ℤ}

abbrev pub fee_rate_denominator : ℕ
fee_rate_denominator = 1_000_000

-- The parameters of the trade-size fee are read, and the fee is not charged.
pub record ByrealFee : Type 0 where
  pub pool_trade_fee_rate : ℕ
  pub flags : ℕ
  pub decay_init_rate : ℕ
  pub decay_decrease_rate : ℕ
  pub decay_interval : ℕ
  pub open_time : ℕ
  pub status : ℕ
  pub fee_on : ℕ
  pub arbitrage_fee_buffer_ppm : ℕ
  pub slippage_fee_base : ℕ
  pub slippage_fee_threshold : ℕ
  pub imbalance_fee_base : ℕ
  pub imbalance_fee_x : ℕ
  pub decimals_0 : ℕ
  pub decimals_1 : ℕ
  pub feed_id_0 : List ℕ
  pub feed_id_1 : List ℕ
  pub oracle_0 : Pubkey
  pub oracle_1 : Pubkey

-- Whether the bit of that index is set.
abbrev pub bit : (n i : ℕ) → Bool
bit n i = n / 2 ^ i % 2 == 1

unfoldable pub is_dynamic : ByrealFee → Bool
is_dynamic f = bit f.flags 4

unfoldable pub token1_is_quote : ByrealFee → Bool
token1_is_quote f = bit f.flags 3

decay_enabled : ByrealFee → Bool
decay_enabled f = bit f.flags 0

pub can_swap : ByrealFee → (now : ℕ) → Bool
can_swap f now = not (bit f.status 4) && ltb f.open_time now && f.fee_on == 0

-- The closure `mul_div_ceil` with the denominator of the rates, a cast to `u64` that does not cut.
scaled : ℕ → ℕ → ℕ
scaled a b = div_ceil (a * b) fee_rate_denominator % 2 ^ 64

-- The loop by squaring, on the 64 bits of the exponent.
power : (bits exp rate base : ℕ) → ℕ
power zero exp rate base = rate
power (suc bits) exp rate base =
    let taken = if exp % 2 == 1 then scaled rate base else rate in
    let rest = power bits (exp / 2) taken (scaled base base) in if exp == 0 then rate else rest

decay_fee_rate : ByrealFee → (now : ℕ) → Option ℕ
decay_fee_rate f now =
    if ltb now f.open_time then some 0 else if f.decay_interval == 0 then none else (do
      let intervals = (now - f.open_time) / f.decay_interval
      base ← checked_sub fee_rate_denominator (f.decay_decrease_rate * 10_000)
      let rate = power 64 intervals fee_rate_denominator base
      fit u32_max (div_ceil (rate * f.decay_init_rate) 100 % 2 ^ 64))

-- The pool's own rate, where it has one.
abbrev pub trade_fee_rate : ByrealFee → (config_trade_fee_rate : ℕ) → ℕ
trade_fee_rate f config_trade_fee_rate =
    if not (f.pool_trade_fee_rate == 0) then f.pool_trade_fee_rate else config_trade_fee_rate

pub base_fee_rate :
    ByrealFee → (config_trade_fee_rate : ℕ) → (zero_for_one : Bool) → (now : ℕ) → Option ℕ
base_fee_rate f config_trade_fee_rate zero_for_one now = do
  let decay_side = (zero_for_one && bit f.flags 1) || (not zero_for_one && bit f.flags 2)
  decay ← if decay_enabled f && decay_side then decay_fee_rate f now else some 0
  some (max (trade_fee_rate f config_trade_fee_rate) decay)
