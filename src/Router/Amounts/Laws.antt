-- ===== src/Router/Amounts/Laws.antt =====
-- quote/router.rs and quote/types.rs: theorems on what is promised.
use flow_trades_solana.Base.{
  ℕ, ◌-◌, ◌*◌, ◌/◌, ◌≤◌, ◌<◌, ◌≡◌, ◌∙◌, some, answered, min, u64_max, arith, mul-le-mul_left,
}
use flow_trades_solana.Base.Arith.{div-le_self_of_le, div_mono}
use flow_trades_solana.Router.Amounts.{guaranteed, compute_threshold, leg_out}
use flow_trades_solana.Math.ConstantProduct.{compute_constant_product_out}

-- A share of at most the whole.
share-le : (x k : ℕ) → k ≤ 10_000 → x * k / 10_000 ≤ x
share-le x k h = div-le_self_of_le x (x * k) 10_000 (omega arith) (mul-le-mul_left x h)

-- For a quoted output of 64 bits that is not zero, a hop is guaranteed at least the least output that the
-- slippage allows, at least one unit, and at most what is quoted.
pub guaranteed_bounds :
    (quoted slippage : ℕ)
    → 0 < quoted
    → quoted ≤ u64_max
    → (compute_threshold quoted slippage ≤ guaranteed quoted slippage)
      × (0 < guaranteed quoted slippage)
      × (guaranteed quoted slippage ≤ quoted)
unfolding compute_threshold guaranteed
guaranteed_bounds q s h0 h =
    let a = 10_000 - min s 10_000 in
    let b = 10_000 - min s 9_999 in
    let less : q * a ≤ q * b = mul-le-mul_left q (omega arith) in
    let floors = div_mono (q * a) (q * b) 10_000 (omega arith) less in
    let up = share-le q a (omega arith) in
    let top = share-le q b (omega arith) in omega (arith, floors, up, top, h0, h)

pub leg_out_inversion :
    (fee_bps reserve_in reserve_out amount : ℕ) {out fee : ℕ}
    → leg_out fee_bps reserve_in reserve_out amount ≡ some (out, fee)
    → compute_constant_product_out reserve_in reserve_out amount fee_bps ≡ some out
unfolding leg_out
leg_out_inversion fee_bps reserve_in reserve_out amount {out} {fee} h =
    let (o, e, k) =
      answered (compute_constant_product_out reserve_in reserve_out amount fee_bps) h in
    e ∙ ground (arith, k)
