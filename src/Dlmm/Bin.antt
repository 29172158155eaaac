-- ===== src/Dlmm/Bin.antt =====
-- quote/dlmm.rs: one bin, and the swap inside it. `rate` is at most `max_fee_rate` where the walk
-- calls it, so that the products of the fee fit in 128 bits. Sums of `u64` wrap around, as in a
-- release build.
mod Tests
pub mod Laws
use flow_trades_solana.Base.{
  ℕ, ◌+◌, ◌-◌, ◌*◌, ◌/◌, ◌%◌, ◌^◌, Bool, true, false, Option, none, some, ◌||◌, not, ltb, leb, ◌==◌,
  if◌then◌else◌, ◌>>=◌, ◌>>◌, fit, u128_max, to_u64, checked_sub, checked_add_u64,
  saturating_add_u64, div_ceil, ◌&&◌,
}
use flow_trades_solana.Clmm.Wide.{mul_div_floor, mul_div_ceil}
use flow_trades_solana.Dlmm.Pair.{fee_precision}
use flow_trades_solana.Dlmm.Price.{q64}

pub record Bin : Type 0 where
  pub amount_x : ℕ
  pub amount_y : ℕ
  pub price : ℕ
  pub open_order_amount : ℕ
  pub processed_order_remaining_amount : ℕ
  pub limit_order_ask_side : Bool

abbrev pub wrapping_add_u64 : ℕ → ℕ → ℕ
wrapping_add_u64 a b = (a + b) % 2 ^ 64

-- The orders that a swap takes: from X to Y bids, from Y to X asks.
takes_orders : Bin → Bool → Bool
takes_orders b swap_for_y =
    if swap_for_y then not b.limit_order_ask_side else b.limit_order_ask_side

-- (open, processed)
pub limit_orders : Bin → Bool → ℕ × ℕ
limit_orders b swap_for_y =
    if takes_orders b swap_for_y
    then (b.open_order_amount, b.processed_order_remaining_amount)
    else (0, 0)

unfoldable pub market_making : Bin → Bool → ℕ
market_making b swap_for_y = if swap_for_y then b.amount_y else b.amount_x

unfoldable pub max_amount_out : Bin → Bool → Bool → ℕ
max_amount_out b swap_for_y with_orders =
    let mm = market_making b swap_for_y in
    if not with_orders
    then mm
    else saturating_add_u64 (saturating_add_u64 mm (limit_orders b swap_for_y).0)
        (limit_orders b swap_for_y).1

unfoldable pub amount_in_for : (out price : ℕ) → Bool → Option ℕ
amount_in_for out price swap_for_y =
    (if swap_for_y then mul_div_ceil out q64 price else mul_div_ceil out price q64) >>= to_u64

unfoldable pub amount_out_for : (amount price : ℕ) → Bool → Option ℕ
amount_out_for amount price swap_for_y =
    (if swap_for_y then mul_div_floor price amount q64 else mul_div_floor amount q64 price)
    >>= to_u64

unfoldable pub fee_from_amount : (amount rate : ℕ) → Option ℕ
fee_from_amount amount rate = to_u64 (div_ceil (amount * rate) fee_precision)

pub fee_on_top : (amount rate : ℕ) → Option ℕ
fee_on_top amount rate = to_u64 (div_ceil (amount * rate) (fee_precision - rate))

-- (in used, out)
unfoldable pub fill : (amount max_out price : ℕ) → Bool → Option (ℕ × ℕ)
fill amount max_out price swap_for_y = if max_out == 0 || amount == 0 then some (0, 0) else (do
  max_in ← amount_in_for max_out price swap_for_y
  if leb max_in amount
      then some (max_in, max_out)
      else (do out ← amount_out_for amount price swap_for_y; some (amount, out)))

-- One more layer after (used, out).
pub fill_more : (excluded layer price : ℕ) → Bool → ℕ × ℕ → Option (ℕ × ℕ)
fill_more excluded layer price swap_for_y (used, out) =
    if ltb used excluded
    then (do
      (u, o) ← fill (excluded - used) layer price swap_for_y
      some (wrapping_add_u64 used u, wrapping_add_u64 out o))
    else some (used, out)

-- All the layers: (used, out).
unfoldable pub fill_bin : Bin → (price excluded : ℕ) → Bool → Bool → Option (ℕ × ℕ)
fill_bin b price excluded swap_for_y with_orders = do
  filled ← fill excluded (market_making b swap_for_y) price swap_for_y
  if with_orders
      then fill_more excluded (limit_orders b swap_for_y).1 price swap_for_y filled
        >>= fill_more excluded (limit_orders b swap_for_y).0 price swap_for_y
      else some filled

pub record BinSwap : Type 0 where
  pub consumed : ℕ
  pub out : ℕ
  pub fee : ℕ

-- With the fee on the input.
unfoldable pub swap_fee_in : Bin → (price rate amount : ℕ) → Bool → Bool → Option BinSwap
swap_fee_in b price rate amount swap_for_y with_orders = do
  fee ← fee_from_amount amount rate
  excluded ← checked_sub amount fee
  (used, out) ← fill_bin b price excluded swap_for_y with_orders
  if ltb used excluded
      then (do
        top ← fee_on_top used rate
        consumed ← checked_add_u64 used top
        some (record { consumed = consumed; out = out; fee = top }))
      else some (record { consumed = amount; out = out; fee = fee })

-- With the fee on the output.
pub swap_fee_out : Bin → (price rate amount : ℕ) → Bool → Bool → Option BinSwap
swap_fee_out b price rate amount swap_for_y with_orders = do
  (used, out) ← fill_bin b price amount swap_for_y with_orders
  fee ← fee_from_amount out rate
  net ← checked_sub out fee
  some (record { consumed = if ltb used amount then used else amount; out = net; fee = fee })

unfoldable pub swap_in_bin :
    Bin → (price rate amount : ℕ) → (swap_for_y with_orders fee_on_input : Bool) → Option BinSwap
swap_in_bin b price rate amount swap_for_y with_orders fee_on_input =
    if fee_on_input
    then swap_fee_in b price rate amount swap_for_y with_orders
    else swap_fee_out b price rate amount swap_for_y with_orders
