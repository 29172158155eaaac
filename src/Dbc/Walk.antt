-- ===== src/Dbc/Walk.antt =====
-- quote/dbc.rs: the walk along the curve's segments, in either direction.
mod Tests
pub mod Laws
use flow_trades_solana.Base.{
  ℕ, zero, suc, ◌+◌, ◌-◌, ◌*◌, ◌/◌, ◌%◌, ◌^◌, ◌≤◌, ◌<◌, ◌≡◌, min, Bool, true, false, Option, none,
  some, List, [], ◌∷◌, ltb, leb, ◌==◌, if◌then◌else◌, ◌>>=◌, ◌>>◌, refuse_if, checked_add_u64,
  u128_max, div_ceil, get_elem?, length,
}
use flow_trades_solana.DammV2.Price.{
  delta_a, delta_b, next_sqrt_price_from_a, next_sqrt_price_from_b,
}
use flow_trades_solana.Dbc.Config.{DbcConfig, DbcCurve}

-- `delta_base_u256` and `delta_quote_u256`.
-- The source divides by zero, and panics, at a price of zero: `none`.
pub delta_base : ℕ → ℕ → ℕ → Bool → Option ℕ
delta_base lower upper liquidity round_up =
    let num = liquidity * (upper - lower) in
    let den = lower * upper in
    if den == 0 then none else some (if round_up then div_ceil num den else num / den)

pub delta_quote : ℕ → ℕ → ℕ → Bool → ℕ
delta_quote lower upper liquidity round_up =
    let prod = liquidity * (upper - lower) in
    if round_up then div_ceil prod (2 ^ 128) else prod / 2 ^ 128

-- The last piece of a buy, inside a segment.
buy_last : ℕ → ℕ → ℕ → ℕ → Option (ℕ × ℕ)
buy_last out cur liquidity left = do
  next ← next_sqrt_price_from_b cur liquidity left
  bought ← delta_a cur next liquidity false
  total ← checked_add_u64 out bought
  some (total, next)

-- A whole segment of a buy.
buy_whole : ℕ → ℕ → ℕ → ℕ → Option ℕ
buy_whole out cur point liquidity = delta_a cur point liquidity false >>= checked_add_u64 out

pub buy_loop : ℕ → List (ℕ × ℕ) → (out cur left : ℕ) → Option (ℕ × ℕ)
buy_loop stop [] out cur left = none
buy_loop stop ((price, liquidity) ∷ rest) out cur left =
    let point = min price stop in
    let max_in = delta_quote cur point liquidity true in
    let skipped = buy_loop stop rest out cur left in
    let inside = buy_last out cur liquidity left in
    let spent = left - max_in % 2 ^ 64 in
    let beyond : Option (ℕ × ℕ) =
      (buy_whole out cur point liquidity >>= λ total.
      if spent == 0
      then some (total, point)
      else if point == stop
      then none
      else buy_loop stop rest total point spent) in
    if leb point cur then skipped else if ltb left max_in then inside else beyond

abbrev pub stop_price : DbcConfig → ℕ
stop_price c = if c.migration_sqrt_price == 0 then u128_max else c.migration_sqrt_price

pub quote_to_base : DbcCurve → ℕ → Option (ℕ × ℕ)
quote_to_base c amount = buy_loop (stop_price c.config) c.config.curve 0 c.sqrt_price amount

-- A piece of a sale that ends at the price `next`.
sell_last : ℕ → ℕ → ℕ → ℕ → Option (ℕ × ℕ)
sell_last out cur liquidity next = do
  sold ← delta_b next cur liquidity false
  total ← checked_add_u64 out sold
  some (total, next)

-- Below the first point.
sell_rest : DbcConfig → (out cur left : ℕ) → Option (ℕ × ℕ)
unfolding sell_last
sell_rest c out cur left =
    if ltb 0 left
    then (do
      (_, liquidity) ← get_elem? c.curve 0
      next ← next_sqrt_price_from_a cur liquidity left
      refuse_if (ltb next c.sqrt_start_price)
      sell_last out cur liquidity next)
    else some (out, cur)

-- A whole segment of a sale.
sell_whole : ℕ → ℕ → ℕ → ℕ → Option ℕ
sell_whole out cur point liquidity = delta_b point cur liquidity false >>= checked_add_u64 out

-- The points below index `i`, from the highest; an index out of range, where the source would
-- panic, is `none`.
pub sell_loop : ℕ → DbcConfig → (out cur left : ℕ) → Option (ℕ × ℕ)
unfolding sell_rest
sell_loop zero c out cur left = sell_rest c out cur left
sell_loop (suc i) c out cur left = get_elem? c.curve i >>= λ (point, _). elim (leb cur point) [
  | true ↦ sell_loop i c out cur left
  | false ↦ get_elem? c.curve (suc i) >>= λ (_, liquidity).
      delta_base point cur liquidity true >>= λ max_in. elim (ltb left max_in) [
        | true ↦ next_sqrt_price_from_a cur liquidity left >>= sell_last out cur liquidity
        | false ↦ sell_whole out cur point liquidity >>= λ total.
            sell_loop i c total point (left - max_in % 2 ^ 64)
      ]
]

pub base_to_quote : DbcCurve → ℕ → Option (ℕ × ℕ)
base_to_quote c amount = sell_loop (length c.config.curve - 1) c.config 0 c.sqrt_price amount
