-- ===== src/Clmm/Wide/Tests.antt =====
-- quote/clmm.rs: a product beyond 128 bits.
use flow_trades_solana.Base.{◌≡◌, ◌^◌, ◌*◌, ◌+◌, arith, u128_max}
use flow_trades_solana.Clmm.Wide.{wide_mul}
use flow_trades_solana.Clmm.Wide.Laws.{wide_mul_lem}

wide_mul_lem_example : wide_mul u128_max (2 ^ 127 + 1) ≡ u128_max * (2 ^ 127 + 1)
wide_mul_lem_example = wide_mul_lem u128_max (2 ^ 127 + 1) (omega arith) (omega arith)
