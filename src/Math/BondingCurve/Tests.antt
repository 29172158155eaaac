-- ===== src/Math/BondingCurve/Tests.antt =====
-- quote/math.rs: the bonding curve on small reserves.
use flow_trades_solana.Base.{◌≡◌, refl, some}
use flow_trades_solana.Math.BondingCurve.{compute_bonding_curve_out, compute_bonding_curve_in}

sold_100 : compute_bonding_curve_out 1_000 2_000 100 10 1_000 ≡ some 180
unfolding compute_bonding_curve_out
sold_100 = refl

wanted_180 : compute_bonding_curve_in 1_000 2_000 180 10 1_000 ≡ some 100
unfolding compute_bonding_curve_in
wanted_180 = refl
