-- ===== src/Dbc/Walk/Laws.antt =====
-- quote/dbc.rs: theorems on where a buy's walk along the curve ends.
use flow_trades_solana.Base.{
  ℕ, ◌+◌, ◌-◌, ◌*◌, ◌/◌, ◌%◌, ◌^◌, ◌≤◌, ◌<◌, ◌≡◌, min, true, false, some, List, [], ◌∷◌, arith, inl,
  inr, Option-cases,
}
use flow_trades_solana.Base.Arith.{div_ceil-mul-lt, div-le_self_of_le}
use flow_trades_solana.DammV2.Price.{
  next_sqrt_price_from_b, next_sqrt_price_from_b_bounds, next_sqrt_price_from_b-eq, delta_a,
}
use flow_trades_solana.Dbc.Config.{DbcCurve}
use flow_trades_solana.Dbc.Walk.{
  delta_quote, buy_last, buy_whole, buy_loop, stop_price, quote_to_base,
}

-- A last piece that costs less than the way to `point` ends before it.
before :
    (left l cur point n : ℕ)
    → 0 < l
    → cur ≤ point
    → left < delta_quote cur point l true
    → n ≡ cur + left * 2 ^ 128 / l
    → n ≤ point
unfolding delta_quote
before left l cur point n hl le lt e =
    let cost : left * 2 ^ 128 ≤ (point - cur) * l =
      omega (arith, div_ceil-mul-lt (l * (point - cur)) (2 ^ 128)) in
    omega (arith, div-le_self_of_le (point - cur) (left * 2 ^ 128) l hl cost)

buy_last_bounds :
    (out cur l left point : ℕ) {o p : ℕ}
    → left < delta_quote cur point l true
    → cur ≤ point
    → buy_last out cur l left ≡ some (o, p)
    → (cur ≤ p) × (p ≤ point)
unfolding buy_last
buy_last_bounds out cur l left point {p = p} lt le h =
    elim (Option-cases (next_sqrt_price_from_b cur l left)) [
      | inl e ↦ ground arith
      | inr (m, e) ↦ elim (Option-cases (delta_a cur m l false)) [
        | inl e1 ↦ ground arith
        | inr (k, e1) ↦
            let same : m ≡ p = ground arith in
            let b = next_sqrt_price_from_b_bounds cur l left e in
            ground (
              arith,
              before left l cur point m (b.0) le lt (next_sqrt_price_from_b-eq cur l left e),
            )
      ]
    ]

buy_loop_bounds :
    (stop : ℕ) (points : List (ℕ × ℕ)) (out cur left : ℕ) {o p : ℕ}
    → cur ≤ stop
    → buy_loop stop points out cur left ≡ some (o, p)
    → (cur ≤ p) × (p ≤ stop)
unfolding buy_loop
buy_loop_bounds stop [] out cur left le h = ground arith
buy_loop_bounds stop ((price, l) ∷ rest) out cur left {o = o} {p = p} le h =
    let point = min price stop in
    let below : point ≤ stop = omega arith in
    let skip = buy_loop_bounds stop rest out cur left {o = o} {p = p} le in
    let last = buy_last_bounds out cur l left point {o = o} {p = p} in
    elim (Option-cases (buy_whole out cur point l)) [
      | inl e ↦ ground (arith, skip, last)
      | inr (t, e) ↦
          let on =
            buy_loop_bounds stop rest t point (left - delta_quote cur point l true % 2 ^ 64) {o = o}
              {p = p} below in
          ground (arith, skip, last, on)
    ]

-- A quoted buy that starts at most at the migration price ends between the two, so that it never
-- passes the migration price.
pub quote_to_base_bounds :
    (c : DbcCurve) (amount : ℕ) {o p : ℕ}
    → c.sqrt_price ≤ stop_price c.config
    → quote_to_base c amount ≡ some (o, p)
    → (c.sqrt_price ≤ p) × (p ≤ stop_price c.config)
unfolding quote_to_base
quote_to_base_bounds c amount le h =
    buy_loop_bounds (stop_price c.config) c.config.curve 0 c.sqrt_price amount le h
