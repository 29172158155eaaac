-- ===== src/ObservedFees/Tests.antt =====
-- stream/observed_fees.rs: the fee of a small swap.
use flow_trades_solana.Base.{◌≡◌, refl, some}
use flow_trades_solana.ObservedFees.{implied_fee_ppm}

implied_11000 : implied_fee_ppm 1_000 90 10_000 1_000 ≡ some 11_000
unfolding implied_fee_ppm
implied_11000 = refl
