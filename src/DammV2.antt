-- ===== src/DammV2.antt =====
-- quote/damm_v2.rs: Meteora DAMM v2, exact input. `Fees` has the fee of a swap, `Price` the
-- square-root-price steps; the swap is here. Values of the source's 256-bit type are naturals: the
-- widths of the operands keep all but the volatility fee below 2^256.
pub mod Price
pub mod Fees
pub mod Parts
pub mod Concentrated
pub mod Laws
use flow_trades_solana.Base.{
  ℕ, ◌+◌, ◌*◌, Bool, true, false, Option, none, some, ◌||◌, not, ltb, leb, ◌==◌, if◌then◌else◌,
  ◌>>=◌, ◌>>◌, refuse_if, checked_add, checked_sub, checked_div, to_u64,
}
use flow_trades_solana.DammV2.Price.{
  mul_div, delta_a, delta_b, next_sqrt_price_from_a, next_sqrt_price_from_b, fee_denominator,
}

-- 2 is `COLLECT_FEE_MODE_COMPOUNDING`.
pub fee_on_input : ℕ → Bool → Bool
fee_on_input collect_fee_mode a_to_b =
    if collect_fee_mode == 1 || collect_fee_mode == 2 then not a_to_b else false

pub data DammCurve : Type 0 where
  concentrated : (liquidity sqrt_price sqrt_min sqrt_max : ℕ) → DammCurve
  compounding : (reserve_a reserve_b : ℕ) → DammCurve

pub record DammQuote : Type 0 where
  pub amount_out : ℕ
  pub fee : ℕ
  pub next_sqrt_price : ℕ

unwrap_or_zero : Option ℕ → ℕ
unwrap_or_zero none = 0
unwrap_or_zero (some n) = n

pub reserves : DammCurve → ℕ × ℕ
reserves (DammCurve.concentrated liquidity sqrt_price sqrt_min sqrt_max) = (
  unwrap_or_zero (delta_a sqrt_price sqrt_max liquidity false),
  unwrap_or_zero (delta_b sqrt_min sqrt_price liquidity false),
)
reserves (DammCurve.compounding reserve_a reserve_b) = (reserve_a, reserve_b)

pub fee_of : ℕ → ℕ → Option ℕ
fee_of fee_numerator amount = mul_div amount fee_numerator fee_denominator true >>= to_u64

-- (next_sqrt_price, out_raw) of the curve, for the input that reaches it.
pub curve_swap : DammCurve → Bool → ℕ → Option (ℕ × ℕ)
curve_swap (DammCurve.concentrated liquidity sqrt_price sqrt_min sqrt_max) true actual_in = do
  refuse_if (liquidity == 0 || sqrt_price == 0)
  next ← next_sqrt_price_from_a sqrt_price liquidity actual_in
  refuse_if (ltb next sqrt_min)
  out ← delta_b next sqrt_price liquidity false
  some (next, out)
curve_swap (DammCurve.concentrated liquidity sqrt_price sqrt_min sqrt_max) false actual_in = do
  refuse_if (liquidity == 0 || sqrt_price == 0)
  next ← next_sqrt_price_from_b sqrt_price liquidity actual_in
  refuse_if (ltb sqrt_max next)
  out ← delta_a sqrt_price next liquidity false
  some (next, out)
curve_swap (DammCurve.compounding reserve_a reserve_b) a_to_b actual_in = do
  let res_in = if a_to_b then reserve_a else reserve_b
  let res_out = if a_to_b then reserve_b else reserve_a
  den ← checked_add res_in actual_in
  refuse_if (den == 0)
  wide ← checked_div (res_out * actual_in) den
  out ← to_u64 wide
  some (0, out)

pub swap_exact_in : DammCurve → ℕ → ℕ → Bool → ℕ → Option DammQuote
swap_exact_in curve fee_numerator collect_fee_mode a_to_b amount_in = do
  refuse_if (amount_in == 0 || leb fee_denominator fee_numerator)
  if fee_on_input collect_fee_mode a_to_b
      then (do
        fee ← fee_of fee_numerator amount_in
        actual_in ← checked_sub amount_in fee
        (next, out) ← curve_swap curve a_to_b actual_in
        some (record { amount_out = out; fee = fee; next_sqrt_price = next }))
      else (do
        (next, out_raw) ← curve_swap curve a_to_b amount_in
        fee ← fee_of fee_numerator out_raw
        out ← checked_sub out_raw fee
        some (record { amount_out = out; fee = fee; next_sqrt_price = next }))
