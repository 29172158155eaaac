-- ===== src/Math/Clmm/Tests.antt =====
-- quote/math.rs: one range of a concentrated pool, at price one.
use flow_trades_solana.Base.{◌≡◌, refl, true, some}
use flow_trades_solana.Math.Clmm.{q64, curve_out, curve_in, compute_clmm_output, compute_clmm_input}

sold_1000 : compute_clmm_output q64 1_000_000 1_000 30 true ≡ some 997
unfolding compute_clmm_output curve_out
sold_1000 = refl

wanted_997 : compute_clmm_input q64 1_000_000 997 30 true ≡ some 1_002
unfolding compute_clmm_input curve_in
wanted_997 = refl

sold_1002 : compute_clmm_output q64 1_000_000 1_002 30 true ≡ some 998
unfolding compute_clmm_output curve_out
sold_1002 = refl
