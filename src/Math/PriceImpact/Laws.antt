-- ===== src/Math/PriceImpact/Laws.antt =====
-- quote/math.rs: theorems on the price impact.
use flow_trades_solana.Base.{
  ℕ, ◌-◌, ◌*◌, ◌/◌, ◌%◌, ◌^◌, ◌≤◌, ◌<◌, ◌≡◌, Option, none, some, checked_mul, arith,
}
use flow_trades_solana.Base.Arith.{div-le_self_of_le}
use flow_trades_solana.Math.PriceImpact.{impact_bps, estimate_price_impact, clmm_price_impact}

impact_bps-le : (ideal : Option ℕ) (out : ℕ) → impact_bps ideal out ≤ 10_000
unfolding impact_bps
impact_bps-le none out = omega arith
impact_bps-le (some i) out =
    let less : (i - out) * 10_000 ≤ i * 10_000 = omega arith in
    let cut : (i - out) * 10_000 % 2 ^ 128 ≤ 10_000 * i = omega (arith, less) in
    let top : 0 < i → (i - out) * 10_000 % 2 ^ 128 / i ≤ 10_000 =
      λ h. div-le_self_of_le 10_000 ((i - out) * 10_000 % 2 ^ 128) i h cut in
    ground (arith, top)

-- The impact is at most a hundred percent, and a concentrated pool's is half of it, rounded down.
pub estimate_price_impact_bounds :
    (ri ro a o : ℕ)
    → (estimate_price_impact ri ro a o ≤ 10_000)
      × (clmm_price_impact ri ro a o ≡ estimate_price_impact ri ro a o / 2)
unfolding estimate_price_impact clmm_price_impact
estimate_price_impact_bounds ri ro a o =
    let scaled = checked_mul a ro in
    let ideal : Option ℕ = elim scaled [ none ↦ none | some n ↦ some (n / ri) ] in
    ground (arith, impact_bps-le ideal o)
