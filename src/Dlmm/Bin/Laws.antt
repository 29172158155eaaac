-- ===== src/Dlmm/Bin/Laws.antt =====
-- quote/dlmm.rs: theorems on the swap inside a bin.
use flow_trades_solana.Base.{
  ℕ, ◌+◌, ◌-◌, ◌*◌, ◌≤◌, ◌<◌, ◌≡◌, ap, Bool, true, false, some, arith, inl, inr, Option-cases,
  u64_max, div_ceil, mul-le-mul_right, mul-le-mul_left,
}
use flow_trades_solana.Base.Arith.{div_ceil-le, div-le_self_of_le, le-div_ceil-mul, div_ceil-mul-lt}
use native.Mathlib.Nat.{mod-le}
use flow_trades_solana.Clmm.Wide.{mul_div_floor, mul_div_ceil}
use flow_trades_solana.Clmm.Wide.Laws.{mul_div_floor-le, mul_div_ceil-le}
use flow_trades_solana.Dlmm.Pair.{fee_precision}
use flow_trades_solana.Dlmm.Price.{q64}
use flow_trades_solana.Dlmm.Bin.{
  Bin, BinSwap, limit_orders, market_making, max_amount_out, amount_in_for, amount_out_for,
  fee_from_amount, fee_on_top, fill, fill_more, fill_bin, swap_fee_in, swap_fee_out, swap_in_bin,
}

-- An input below the rounded-up cost of `m` buys at most `m`.
below_cost : (a m p q : ℕ) → 0 < q → a < div_ceil (m * p) q → a * q ≤ m * p
below_cost a m p q hq h = omega (arith, div_ceil-mul-lt (m * p) q hq, mul-le-mul_right q h)

amount_out_for-le :
    (amount max_out price : ℕ) (d : Bool) {max_in out : ℕ}
    → amount_in_for max_out price d ≡ some max_in
    → amount < max_in
    → amount_out_for amount price d ≡ some out
    → out ≤ max_out
unfolding amount_in_for amount_out_for
amount_out_for-le a m p true h lt ho = elim (Option-cases (mul_div_ceil m q64 p)) [
  | inl e ↦ ground arith
  | inr (i, e) ↦ elim (Option-cases (mul_div_floor p a q64)) [
    | inl e1 ↦ ground arith
    | inr (o, e1) ↦
        let (pos, in_le) = mul_div_ceil-le m q64 p e in
        let (_, out_le) = mul_div_floor-le p a q64 e1 in
        ground (arith, in_le, out_le, below_cost a m q64 p pos, div-le_self_of_le m (p * a) q64)
  ]
]
amount_out_for-le a m p false h lt ho = elim (Option-cases (mul_div_ceil m p q64)) [
  | inl e ↦ ground arith
  | inr (i, e) ↦ elim (Option-cases (mul_div_floor a q64 p)) [
    | inl e1 ↦ ground arith
    | inr (o, e1) ↦
        let (_, in_le) = mul_div_ceil-le m p q64 e in
        let (pos, out_le) = mul_div_floor-le a q64 p e1 in
        ground (arith, in_le, out_le, below_cost a m p q64, div-le_self_of_le m (a * q64) p pos)
  ]
]

-- One layer uses at most the input it is offered and pays at most what it holds.
pub fill_bounds :
    (amount max_out price : ℕ) (d : Bool) {u o : ℕ}
    → fill amount max_out price d ≡ some (u, o)
    → (u ≤ amount) × (o ≤ max_out)
unfolding fill
fill_bounds a m p d h = elim (Option-cases (amount_in_for m p d)) [
  | inl e ↦ ground arith
  | inr (i, e) ↦ elim (Option-cases (amount_out_for a p d)) [
    | inl e1 ↦ ground arith
    | inr (o, e1) ↦ ground (arith, amount_out_for-le a m p d {max_in = i} {out = o})
  ]
]

-- A further layer keeps both bounds.
fill_more_bounds :
    (excluded layer price : ℕ) (d : Bool) (used out : ℕ) {u o : ℕ}
    → used ≤ excluded
    → out ≤ u64_max
    → fill_more excluded layer price d (used, out) ≡ some (u, o)
    → (u ≤ excluded) × (o ≤ out + layer) × (o ≤ u64_max)
unfolding fill_more
fill_more_bounds x layer p d used out le fits h = elim (Option-cases (fill (x - used) layer p d)) [
  | inl e ↦ ground arith
  | inr ((u, o), e) ↦
      ground (
        arith,
        fill_bounds (x - used) layer p d {u = u} {o = o},
        mod-le (used + u),
        mod-le (out + o),
      )
]

fill_bin_bounds :
    (b : Bin) (price excluded : ℕ) (d orders : Bool) {u o : ℕ}
    → market_making b d ≤ u64_max
    → fill_bin b price excluded d orders ≡ some (u, o)
    → (u ≤ excluded) × (o ≤ max_amount_out b d orders)
unfolding fill_bin max_amount_out
fill_bin_bounds b p x d orders hm h =
    let processed = (limit_orders b d).1 in
    let opened = (limit_orders b d).0 in
    elim (Option-cases (fill x (market_making b d) p d)) [
      | inl e ↦ ground arith
      | inr ((u1, o1), e) ↦
          let one = fill_bounds x (market_making b d) p d e in
          elim (Option-cases (fill_more x processed p d (u1, o1))) [
            | inl e1 ↦ ground (arith, one)
            | inr ((u2, o2), e1) ↦
                let two = fill_more_bounds x processed p d u1 o1 one.0 (omega (arith, one.1)) e1 in
                elim (Option-cases (fill_more x opened p d (u2, o2))) [
                  | inl e2 ↦ ground (arith, one)
                  | inr ((u3, o3), e2) ↦
                      let three = fill_more_bounds x opened p d u2 o2 two.0 two.2 e2 in
                      ground (arith, one, two, three)
                ]
          ]
    ]

-- With a rate below the whole, the input that a drained bin takes, its fee included, is at most the
-- input whose remainder after the fee would have been enough.
fee_on_top_fits :
    (amount rate used : ℕ)
    → rate < fee_precision
    → used ≤ amount - div_ceil (amount * rate) fee_precision
    → used + div_ceil (used * rate) (fee_precision - rate) ≤ amount
fee_on_top_fits a r u hr h =
    let k = fee_precision - r in
    let whole : r + k ≡ fee_precision = omega arith in
    let covered : a * r ≤ div_ceil (a * r) fee_precision * fee_precision =
      le-div_ceil-mul (a * r) fee_precision (omega arith) in
    let most : a * r ≤ a * fee_precision = mul-le-mul_left a (omega arith) in
    let kept : u * fee_precision + a * r ≤ a * fee_precision = omega (arith, covered, most) in
    let le : u ≤ a = omega arith in
    let back : a - u + u ≡ a = omega arith in
    let cost : u * r ≤ (a - u) * k = omega (
      arith,
      kept,
      ap (λ (t : ℕ). u * t) whole,
      ap (λ (t : ℕ). a * t) whole,
      ap (λ (t : ℕ). t * k) back,
    ) in
    omega (arith, div_ceil-le (u * r) k (a - u) (omega arith) cost)

fee_in_bounds :
    (b : Bin) (price rate amount : ℕ) (d orders : Bool) {s : BinSwap}
    → market_making b d ≤ u64_max
    → rate < fee_precision
    → swap_fee_in b price rate amount d orders ≡ some s
    → (s.consumed ≤ amount) × (s.out ≤ max_amount_out b d orders)
unfolding swap_fee_in fee_from_amount fee_on_top
fee_in_bounds b p r a d orders hm hr h =
    let fee = div_ceil (a * r) fee_precision in
    elim (Option-cases (fill_bin b p (a - fee) d orders)) [
      | inl e ↦ ground arith
      | inr ((u, o), e) ↦
          let filled = fill_bin_bounds b p (a - fee) d orders hm e in
          ground (arith, filled, fee_on_top_fits a r u hr filled.0)
    ]

fee_out_bounds :
    (b : Bin) (price rate amount : ℕ) (d orders : Bool) {s : BinSwap}
    → market_making b d ≤ u64_max
    → swap_fee_out b price rate amount d orders ≡ some s
    → (s.consumed ≤ amount) × (s.out ≤ max_amount_out b d orders)
unfolding swap_fee_out
fee_out_bounds b p r a d orders hm h = elim (Option-cases (fill_bin b p a d orders)) [
  | inl e ↦ ground arith
  | inr ((u, o), e) ↦
      let filled = fill_bin_bounds b p a d orders hm e in
      elim (Option-cases (fee_from_amount o r)) [
        | inl e1 ↦ ground arith
        | inr (f, e1) ↦ ground (arith, filled)
      ]
]

-- When a bin is swapped through at a rate below the whole, it takes at most the offered input and pays
-- at most what it can pay.
pub swap_in_bin_bounds :
    (b : Bin) (price rate amount : ℕ) (d orders on_input : Bool) {s : BinSwap}
    → market_making b d ≤ u64_max
    → rate < fee_precision
    → swap_in_bin b price rate amount d orders on_input ≡ some s
    → (s.consumed ≤ amount) × (s.out ≤ max_amount_out b d orders)
unfolding swap_in_bin
swap_in_bin_bounds b p r a d orders true hm hr h = fee_in_bounds b p r a d orders hm hr h
swap_in_bin_bounds b p r a d orders false hm hr h = fee_out_bounds b p r a d orders hm h
