-- ===== src/Math/BondingCurve/Laws.antt =====
-- quote/math.rs: theorems on the bonding-curve formula.
use flow_trades_solana.Base.{
  ℕ, ◌+◌, ◌-◌, ◌*◌, ◌/◌, ◌≤◌, ◌<◌, ◌≡◌, ◌↔◌, some, arith, div_ceil, mul-le-mul_left,
}
use flow_trades_solana.Base.Arith.{
  le-div_iff, div-add-lt, div_ceil-le_iff, le-product_out_iff, product_kept, div-le_self_of_le,
}
use flow_trades_solana.Math.BondingCurve.{compute_bonding_curve_out, compute_bonding_curve_in}

-- The input that reaches the curve.
abbrev pub after_fee : ℕ → ℕ → ℕ → ℕ
after_fee amount num den = amount * (den - num) / den

pub out_inversion :
    (v_in v_out amount num den : ℕ) {o : ℕ}
    → compute_bonding_curve_out v_in v_out amount num den ≡ some o
    → (0 < v_in)
      × (0 < v_out)
      × (num < den)
      × (0 < after_fee amount num den)
      × (o ≡ v_out * after_fee amount num den / (v_in + after_fee amount num den))
unfolding compute_bonding_curve_out
out_inversion v_in v_out amount num den h = ground arith

pub in_inversion :
    (v_in v_out o num den : ℕ) {a : ℕ}
    → compute_bonding_curve_in v_in v_out o num den ≡ some a
    → (0 < v_in)
      × (0 < o)
      × (o < v_out)
      × (num < den)
      × (a ≡ div_ceil (div_ceil (v_in * o) (v_out - o) * den) (den - num))
unfolding compute_bonding_curve_in
in_inversion v_in v_out o num den h = ground arith

-- A quoted output is below the virtual reserve, and the product of the virtual reserves after the
-- swap is at least the product before it, even when only the input net of the fee is counted.
pub compute_bonding_curve_out_keeps_product :
    (v_in v_out amount num den : ℕ) {o : ℕ}
    → compute_bonding_curve_out v_in v_out amount num den ≡ some o
    → (o < v_out)
      × (after_fee amount num den ≤ amount)
      × (v_in * v_out ≤ (v_in + after_fee amount num den) * (v_out - o))
compute_bonding_curve_out_keeps_product v_in v_out amount num den {o} h =
    let (pi, po, lt, pa, e) = out_inversion v_in v_out amount num den h in
    let x = after_fee amount num den in
    let below : o < v_out = rw e (div-add-lt v_out x v_in po pi) in
    let paid = (le-product_out_iff o v_out v_in x pi (omega arith)).0 (omega arith) in
    let part : amount * (den - num) ≤ amount * den = mul-le-mul_left amount (omega arith) in
    (
      below,
      div-le_self_of_le amount (amount * (den - num)) den (omega arith) part,
      product_kept o v_out v_in x (omega arith) paid,
    )

-- The exact-output quote is the least input: it and any larger amount, where quoted, yield at
-- least the wanted output, and any smaller amount yields less.
pub compute_bonding_curve_in_least :
    (v_in v_out o num den b : ℕ) {a p : ℕ}
    → compute_bonding_curve_in v_in v_out o num den ≡ some a
    → compute_bonding_curve_out v_in v_out b num den ≡ some p
    → (o ≤ p) ↔ (a ≤ b)
compute_bonding_curve_in_least v_in v_out o num den b {a} {p} h k =
    let (pi, po, lt, lf, ea) = in_inversion v_in v_out o num den h in
    let (_, _, _, _, ep) = out_inversion v_in v_out b num den k in
    let pre = div_ceil (v_in * o) (v_out - o) in
    let x = after_fee b num den in
    let bought = le-product_out_iff o v_out v_in x pi (omega arith) in
    let priced = div_ceil-le_iff (v_in * o) (v_out - o) x (omega arith) in
    let kept = le-div_iff pre (b * (den - num)) den (omega arith) in
    let needed = div_ceil-le_iff (pre * den) (den - num) b (omega arith) in
    rw (ea, ep)
      (
        λ le. needed.1 (kept.0 (priced.1 (omega (arith, bought.0 le)))),
        λ le. bought.1 (omega (arith, priced.0 (kept.1 (needed.0 le)))),
      )
