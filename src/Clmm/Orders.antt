-- ===== src/Clmm/Orders.antt =====
-- quote/clmm.rs: limit orders resting on a tick. Sums of `u128` that the source does not check wrap
-- around; a division by a zero price, where it panics, is `none`. The rate is below the denominator.
mod Tests
pub mod Laws
use flow_trades_solana.Base.{
  ℕ, ◌+◌, ◌-◌, ◌*◌, ◌/◌, ◌%◌, ◌^◌, Bool, Option, none, some, ◌||◌, ltb, leb, ◌==◌, if◌then◌else◌,
  ◌>>=◌, ◌>>◌, refuse_if, checked_add, fit,
}
use flow_trades_solana.Clmm.Wide.{to_u128, mul_div_floor, mul_div_ceil}
use flow_trades_solana.Clmm.Price.{q64}
use flow_trades_solana.Clmm.Step.{fee_denominator_ppm}

abbrev pub wrapping_add : ℕ → ℕ → ℕ
wrapping_add a b = (a + b) % 2 ^ 128

-- The input that buys every order token, before its fee.
fusion_full_in : (unfilled tick_sqrt_price : ℕ) → Bool → Option ℕ
fusion_full_in unfilled tick_sqrt_price a_to_b =
    let sq = tick_sqrt_price * tick_sqrt_price in
    let num = unfilled * 2 ^ 128 in
    let v = unfilled * (sq / 2 ^ 64) in
    if a_to_b
    then (do refuse_if (sq == 0); to_u128 (if num % sq == 0 then num / sq else num / sq + 1))
    else (do q ← to_u128 (v / 2 ^ 64); some (if v % 2 ^ 64 == 0 then q else wrapping_add q 1))

-- (input consumed incl. fee, output)
unfoldable pub fill_fusion_orders :
    (unfilled remaining tick_sqrt_price fee_ppm : ℕ) → Bool → Option (ℕ × ℕ)
unfolding fusion_full_in
fill_fusion_orders unfilled remaining tick_sqrt_price fee_ppm a_to_b =
    if unfilled == 0 then some (0, 0) else (do
      full_in ← fusion_full_in unfilled tick_sqrt_price a_to_b
      full_fee ← mul_div_ceil full_in fee_ppm (fee_denominator_ppm - fee_ppm)
      if leb (wrapping_add full_in full_fee) remaining
          then some (wrapping_add full_in full_fee, unfilled)
          else (do
            fee ← mul_div_ceil remaining fee_ppm fee_denominator_ppm
            out ← mul_div_floor unfilled (remaining - fee) full_in
            some (remaining, out)))

pub record Match : Type 0 where
  pub used : ℕ
  pub got : ℕ
  pub filled : ℕ

-- What the input buys at the price, and what it costs to buy all the orders.
bought : (amount_in price : ℕ) → Bool → Option ℕ
bought amount_in price a_to_b =
    if a_to_b then mul_div_floor amount_in price q64 else mul_div_floor amount_in q64 price

cost : (unfilled price : ℕ) → Bool → Option ℕ
cost unfilled price a_to_b =
    if a_to_b then mul_div_ceil unfilled q64 price else mul_div_ceil unfilled price q64

record Priced : Type 0 where
  pub amount_in : ℕ
  pub fee : ℕ
  pub amount_out : ℕ

-- The orders are all filled, or as many as the input buys.
priced : (unfilled amount_in fee price fee_ppm : ℕ) → (a_to_b fee_on_input : Bool) → Option Priced
priced unfilled amount_in fee price fee_ppm a_to_b fee_on_input = do
  matched ← bought amount_in price a_to_b
  if ltb unfilled matched
      then (do
        whole ← cost unfilled price a_to_b
        whole_fee ←
            if fee_on_input
            then mul_div_ceil whole fee_ppm (fee_denominator_ppm - fee_ppm)
            else some fee
        some (record { amount_in = whole; fee = whole_fee; amount_out = unfilled }))
      else some (record { amount_in = amount_in; fee = fee; amount_out = matched })

-- The fee taken from the whole input, where it is.
input_fee : (remaining fee_ppm : ℕ) → Bool → Option ℕ
input_fee remaining fee_ppm fee_on_input =
    if fee_on_input then mul_div_ceil remaining fee_ppm fee_denominator_ppm else some 0

-- With the fee on the side where it is taken.
settle : (fee_ppm : ℕ) → Bool → Priced → Option Match
settle fee_ppm fee_on_input p =
    if fee_on_input
    then (do
      used ← checked_add p.amount_in p.fee
      some (record { used = used; got = p.amount_out; filled = p.amount_out }))
    else (do
      out_fee ← mul_div_ceil p.amount_out fee_ppm fee_denominator_ppm
      some (record { used = p.amount_in; got = p.amount_out - out_fee; filled = p.amount_out }))

unfoldable pub match_limit_orders :
    (unfilled remaining tick_sqrt_price fee_ppm : ℕ) → (a_to_b fee_on_input : Bool) → Option Match
unfolding input_fee priced settle bought cost
match_limit_orders unfilled remaining tick_sqrt_price fee_ppm a_to_b fee_on_input =
    if unfilled == 0 || remaining == 0 then some (record { used = 0; got = 0; filled = 0 }) else (do
      let sq = tick_sqrt_price * tick_sqrt_price
      let prod = if a_to_b then sq else sq + (q64 - 1)
      price ← to_u128 (prod / 2 ^ 64)
      fee ← input_fee remaining fee_ppm fee_on_input
      p ← priced unfilled (remaining - fee) fee price fee_ppm a_to_b fee_on_input
      settle fee_ppm fee_on_input p)
