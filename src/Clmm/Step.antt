-- ===== src/Clmm/Step.antt =====
-- quote/clmm.rs: the amounts between two square-root prices, and one step of a swap.
mod Tests
pub mod Deltas
pub mod Move
pub mod Laws
use flow_trades_solana.Base.{
  ℕ, ◌+◌, ◌-◌, ◌*◌, ◌/◌, ◌^◌, min, max, Bool, true, false, not, Option, none, some, ◌||◌, ◌&&◌, ltb,
  leb, ◌==◌, if◌then◌else◌, ◌>>=◌, ◌>>◌, refuse_if, checked_sub, checked_add, u64_max, fit,
}
use flow_trades_solana.Clmm.Wide.{
  u256_max, to_u128, wide_mul, mul_div_256, mul_div_floor, mul_div_ceil,
}
use flow_trades_solana.Clmm.Price.{q64}

abbrev pub fee_denominator_ppm : ℕ
fee_denominator_ppm = 1_000_000

-- The two prices in order; the lower one must be positive.
unfoldable pub amount0_delta : (a b liquidity : ℕ) → Bool → Option ℕ
amount0_delta a b liquidity round_up = do
  refuse_if (min a b == 0)
  q ←
      mul_div_256 (wide_mul liquidity (max a b - min a b)) (2 ^ 64) (wide_mul (min a b) (max a b))
        round_up
  to_u128 q

unfoldable pub amount1_delta : (a b liquidity : ℕ) → Bool → Option ℕ
amount1_delta a b liquidity round_up =
    if round_up
    then mul_div_ceil liquidity (max a b - min a b) q64
    else mul_div_floor liquidity (max a b - min a b) q64

unfoldable pub next_sqrt_price_from_input : (sqrt_p liquidity amount : ℕ) → Bool → Option ℕ
next_sqrt_price_from_input sqrt_p liquidity amount a_to_b =
    if liquidity == 0 || sqrt_p == 0
    then none
    else if amount == 0
    then some sqrt_p
    else if a_to_b
    then (do
      let num = liquidity * 2 ^ 64
      denom ← fit u256_max (num + wide_mul amount sqrt_p)
      q ← mul_div_256 num sqrt_p denom true
      to_u128 q)
    else (mul_div_floor amount q64 liquidity >>= checked_add sqrt_p)

-- (input, output)
unfoldable pub deltas_to : (sqrt_p target liquidity : ℕ) → Bool → Option (ℕ × ℕ)
deltas_to sqrt_p target liquidity a_to_b = do
  a_in ←
      if a_to_b
      then amount0_delta target sqrt_p liquidity true
      else amount1_delta sqrt_p target liquidity true
  a_out ←
      if a_to_b
      then amount1_delta target sqrt_p liquidity false
      else amount0_delta sqrt_p target liquidity false
  if leb a_in u64_max && leb a_out u64_max then some (a_in, a_out) else none

-- Where a step ends: the price, and the input and output up to it.
pub record Moved : Type 0 where
  pub next : ℕ
  pub amount_in : ℕ
  pub amount_out : ℕ

-- The target is out of reach: as far as the input goes.
move_short : (sqrt_p liquidity for_price : ℕ) → Bool → Option Moved
move_short sqrt_p liquidity for_price a_to_b = do
  next ← next_sqrt_price_from_input sqrt_p liquidity for_price a_to_b
  (a_in, a_out) ← deltas_to sqrt_p next liquidity a_to_b
  some (record { next = next; amount_in = a_in; amount_out = a_out })

unfoldable pub move : (sqrt_p target liquidity for_price : ℕ) → Bool → Option Moved
unfolding move_short
move sqrt_p target liquidity for_price a_to_b =
    let short = move_short sqrt_p liquidity for_price a_to_b in
    elim (deltas_to sqrt_p target liquidity a_to_b) [
      | none ↦ short
      | some (a_in, a_out) ↦
          if leb a_in for_price
          then some (record { next = target; amount_in = a_in; amount_out = a_out })
          else short
    ]

pub record Step : Type 0 where
  pub next : ℕ
  pub used : ℕ
  pub got : ℕ

-- The fee, on the side where it is taken. The rate is below the denominator at every call, so that the
-- output covers its fee.
charge : (target remaining fee_ppm : ℕ) → Bool → Moved → Option Step
charge target remaining fee_ppm fee_on_input m =
    let reached = m.next == target in
    if fee_on_input
    then (do
      fee ←
          if reached
          then mul_div_ceil m.amount_in fee_ppm (fee_denominator_ppm - fee_ppm)
          else checked_sub remaining m.amount_in
      used ← checked_add m.amount_in fee
      some (record { next = m.next; used = used; got = m.amount_out }))
    else (do
      fee ← mul_div_ceil m.amount_out fee_ppm fee_denominator_ppm
      let used = if reached then m.amount_in else remaining
      some (record { next = m.next; used = used; got = m.amount_out - fee }))

unfoldable pub swap_step :
    (sqrt_p target liquidity remaining fee_ppm : ℕ) → (a_to_b fee_on_input : Bool) → Option Step
unfolding charge
swap_step sqrt_p target liquidity remaining fee_ppm a_to_b fee_on_input = do
  for_price ←
      if fee_on_input
      then mul_div_floor remaining (fee_denominator_ppm - fee_ppm) fee_denominator_ppm
      else some remaining
  m ← move sqrt_p target liquidity for_price a_to_b
  refuse_if (if a_to_b then ltb m.next target else ltb target m.next)
  charge target remaining fee_ppm fee_on_input m
