-- ===== src/Clmm/Orders/Laws.antt =====
-- quote/clmm.rs: theorems on the filling of limit orders.
use flow_trades_solana.Base.{
  ℕ, ◌+◌, ◌-◌, ◌*◌, ◌/◌, ◌^◌, ◌≤◌, ◌<◌, ◌≡◌, ap, Bool, true, false, some, u128_max, arith, inl, inr,
  Option-cases, div_ceil, if◌then◌else◌, mul-le-mul_left, mul-le-mul_right,
}
use native.Mathlib.Nat.{mod-le}
use flow_trades_solana.Base.Arith.{
  div-mul-le, le-div_ceil-mul, div_ceil-le, div-le_self_of_le, fee_on_top-le,
}
use flow_trades_solana.Clmm.Wide.{mul_div_floor, mul_div_ceil}
use flow_trades_solana.Clmm.Wide.Laws.{mul_div_floor-le, mul_div_ceil-le, mul_div_ceil_lem}
use flow_trades_solana.Clmm.Price.{q64}
use flow_trades_solana.Clmm.Step.{fee_denominator_ppm}
use flow_trades_solana.Clmm.Orders.{
  fusion_full_in, fill_fusion_orders, Match, bought, cost, Priced, priced, input_fee, settle,
  match_limit_orders,
}

-- More input than buys all the orders costs more than they do.
enough : (x p q u m : ℕ) → 0 < q → m ≤ x * p / q → u < m → u * q ≤ x * p
enough x p q u m hq le lt =
    omega (arith, div-mul-le (x * p) q, mul-le-mul_right q le, mul-le-mul_right q lt)

cost-le :
    (u x p : ℕ) (d : Bool) {m c : ℕ} → bought x p d ≡ some m → u < m → cost u p d ≡ some c → c ≤ x
unfolding bought cost
cost-le u x p true {m = m} h lt k =
    let (pos, le) = mul_div_floor-le x p q64 h in
    let (pos1, le1) = mul_div_ceil-le u q64 p k in
    omega (arith, le1, div_ceil-le (u * q64) p x pos1 (enough x p q64 u m pos le lt))
cost-le u x p false {m = m} h lt k =
    let (pos, le) = mul_div_floor-le x q64 p h in
    let (pos1, le1) = mul_div_ceil-le u p q64 k in
    omega (arith, le1, div_ceil-le (u * p) q64 x pos1 (enough x q64 p u m pos le lt))

bounded : (u x c : ℕ) → 0 < c → x ≤ c → u * x / c ≤ u
bounded u x c pos le = div-le_self_of_le u (u * x) c pos (mul-le-mul_left u le)

-- The fee taken from an input: within it, and at least its share.
fee_share :
    (r f : ℕ) {g : ℕ}
    → r ≤ u128_max
    → f < fee_denominator_ppm
    → mul_div_ceil r f fee_denominator_ppm ≡ some g
    → (g ≤ r) × ((r - g) * fee_denominator_ppm ≤ r * (fee_denominator_ppm - f))
fee_share r f {g = g} rb hf h =
    let eq : g ≡ div_ceil (r * f) fee_denominator_ppm =
      ground (arith, mul_div_ceil_lem r f fee_denominator_ppm rb (omega arith)) in
    let part : r * f ≤ r * fee_denominator_ppm = mul-le-mul_left r (omega arith) in
    let le : g ≤ r = rw eq (div_ceil-le (r * f) fee_denominator_ppm r (omega arith) part) in
    let share : r * f ≤ g * fee_denominator_ppm =
      rw eq (le-div_ceil-mul (r * f) fee_denominator_ppm (omega arith)) in
    let whole : fee_denominator_ppm - f + f ≡ fee_denominator_ppm = omega arith in
    (le, omega (arith, share, ap (λ (t : ℕ). r * t) whole))

-- What is charged on top of a smaller amount fits.
top_fits :
    (r f g c : ℕ)
    → f < fee_denominator_ppm
    → (r - g) * fee_denominator_ppm ≤ r * (fee_denominator_ppm - f)
    → c ≤ r - g
    → c + div_ceil (c * f) (fee_denominator_ppm - f) ≤ r
top_fits r f g c hf share le = fee_on_top-le fee_denominator_ppm r f c hf (omega (arith, share, le))

record Within (u r : ℕ) (on : Bool) (p : Priced) : Type 0 where
  out_le : p.amount_out ≤ u
  in_le : (if on then p.amount_in + p.fee else p.amount_in) ≤ r

priced_on :
    (u r g price f : ℕ) (d : Bool) {p : Priced}
    → f < fee_denominator_ppm
    → g ≤ r
    → (r - g) * fee_denominator_ppm ≤ r * (fee_denominator_ppm - f)
    → priced u (r - g) g price f d true ≡ some p
    → Within u r true p
unfolding priced
priced_on u r g price f d hf gr share h = elim (Option-cases (bought (r - g) price d)) [
  | inl e ↦ ground arith
  | inr (m, e) ↦ elim (Option-cases (cost u price d)) [
    | inl e1 ↦ ground arith
    | inr (c, e1) ↦ elim (Option-cases (mul_div_ceil c f (fee_denominator_ppm - f))) [
      | inl e2 ↦ ground arith
      | inr (w, e2) ↦
          let le = mul_div_ceil-le c f (fee_denominator_ppm - f) e2 in
          ground (arith, le, cost-le u (r - g) price d {m = m} {c = c} e, top_fits r f g c hf share)
    ]
  ]
]

priced_off :
    (u r price f : ℕ) (d : Bool) {p : Priced}
    → priced u r 0 price f d false ≡ some p
    → Within u r false p
unfolding priced
priced_off u r price f d h = elim (Option-cases (bought r price d)) [
  | inl e ↦ ground arith
  | inr (m, e) ↦ elim (Option-cases (cost u price d)) [
    | inl e1 ↦ ground arith
    | inr (c, e1) ↦ ground (arith, cost-le u r price d {m = m} {c = c} e)
  ]
]

settle_on :
    (u r f : ℕ) (p : Priced) {m : Match}
    → Within u r true p
    → settle f true p ≡ some m
    → (m.filled ≤ u) × (m.got ≤ m.filled) × (m.used ≤ r)
unfolding settle
settle_on u r f p w h = let a = w.out_le in let b = w.in_le in ground (arith, a, b)

settle_off :
    (u r f : ℕ) (p : Priced) {m : Match}
    → Within u r false p
    → settle f false p ≡ some m
    → (m.filled ≤ u) × (m.got ≤ m.filled) × (m.used ≤ r)
unfolding settle
settle_off u r f p w h = let a = w.out_le in let b = w.in_le in ground (arith, a, b)

-- For machine integers and a fee below the whole: when orders are matched, at most the orders are filled,
-- the swap gets at most what is filled, and it uses at most the input that remains, its fee included.
pub match_limit_orders_bounds :
    (unfilled remaining price fee : ℕ) (a_to_b on : Bool) {m : Match}
    → remaining ≤ u128_max
    → fee < fee_denominator_ppm
    → match_limit_orders unfilled remaining price fee a_to_b on ≡ some m
    → (m.filled ≤ unfilled) × (m.got ≤ m.filled) × (m.used ≤ remaining)
unfolding match_limit_orders input_fee
match_limit_orders_bounds u r p f d true {m = m} rb hf h =
    let prod = if d then p * p else p * p + (q64 - 1) in
    let price = prod / 2 ^ 64 in
    elim (Option-cases (mul_div_ceil r f fee_denominator_ppm)) [
      | inl e ↦ ground arith
      | inr (g, e) ↦ elim (Option-cases (priced u (r - g) g price f d true)) [
        | inl e1 ↦ ground arith
        | inr (x, e1) ↦
            let (gr, share) = fee_share r f rb hf e in
            let done = settle_on u r f x {m = m} (priced_on u r g price f d hf gr share e1) in
            ground (arith, done)
      ]
    ]
match_limit_orders_bounds u r p f d false {m = m} rb hf h =
    let prod = if d then p * p else p * p + (q64 - 1) in
    let price = prod / 2 ^ 64 in
    elim (Option-cases (priced u r 0 price f d false)) [
      | inl e1 ↦ ground arith
      | inr (x, e1) ↦
          let done = settle_off u r f x {m = m} (priced_off u r price f d e1) in
          ground (arith, done)
    ]

-- For machine integers and a fee below the whole: when Fusion's orders are filled, the swap gets at most
-- the orders and uses at most the input that remains, its fee included.
pub fill_fusion_orders_bounds :
    (unfilled remaining price fee : ℕ) (a_to_b : Bool) {used got : ℕ}
    → remaining ≤ u128_max
    → fee < fee_denominator_ppm
    → fill_fusion_orders unfilled remaining price fee a_to_b ≡ some (used, got)
    → (used ≤ remaining) × (got ≤ unfilled)
unfolding fill_fusion_orders
fill_fusion_orders_bounds u r p f d rb hf h =
    let k = fee_denominator_ppm - f in
    elim (Option-cases (fusion_full_in u p d)) [
      | inl e ↦ ground arith
      | inr (c, e) ↦ elim (Option-cases (mul_div_ceil c f k)) [
        | inl e1 ↦ ground arith
        | inr (w, e1) ↦ elim (Option-cases (mul_div_ceil r f fee_denominator_ppm)) [
          | inl e2 ↦ ground arith
          | inr (g, e2) ↦ elim (Option-cases (mul_div_floor u (r - g) c)) [
            | inl e3 ↦ ground arith
            | inr (o, e3) ↦
                let (gr, share) = fee_share r f rb hf e2 in
                let (pos, le) = mul_div_floor-le u (r - g) c e3 in
                let (_, top) = mul_div_ceil-le c f k e1 in
                ground (
                  arith,
                  le,
                  top,
                  top_fits r f g c hf share,
                  mod-le (c + w) (2 ^ 128),
                  bounded u (r - g) c pos,
                )
          ]
        ]
      ]
    ]
