-- ===== src/ObservedFees/Laws.antt =====
-- stream/observed_fees.rs: theorems on the rounding of the implied fee.
use flow_trades_solana.Base.{ℕ, ◌+◌, ◌-◌, ◌*◌, ◌/◌, ◌≤◌, ◌<◌, ◌≡◌, some, arith}
use flow_trades_solana.Base.Arith.{le-div_ceil-mul, div_ceil-mul-lt}
use flow_trades_solana.ObservedFees.{implied_fee_ppm, whole_bps}

-- When a fee is implied, it is at most 50 %, the amount it takes off what was paid is at least what
-- the constant-product price left unexplained, and by less than one part per million of what was paid.
pub implied_fee_ppm_bounds :
    (paid out r_in r_out : ℕ) {ppm : ℕ}
    → implied_fee_ppm paid out r_in r_out ≡ some ppm
    → (ppm ≤ 500_000)
      × ((paid - out * r_in / (r_out - out)) * 1_000_000 ≤ ppm * paid)
      × (ppm * paid < (paid - out * r_in / (r_out - out)) * 1_000_000 + paid)
unfolding implied_fee_ppm
implied_fee_ppm_bounds p o i r h =
    let scaled = (p - o * i / (r - o)) * 1_000_000 in
    ground (arith, le-div_ceil-mul scaled p, div_ceil-mul-lt scaled p)

-- When a fee is implied, its whole basis points, kept in 16 bits, are at least that fee and less than
-- one basis point above it.
pub whole_bps_bounds :
    (paid out r_in r_out : ℕ) {ppm : ℕ}
    → implied_fee_ppm paid out r_in r_out ≡ some ppm
    → (ppm ≤ whole_bps ppm * 100) × (whole_bps ppm * 100 < ppm + 100)
unfolding whole_bps
whole_bps_bounds p o i r h = omega (arith, implied_fee_ppm_bounds p o i r h)
