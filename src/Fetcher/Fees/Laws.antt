-- ===== src/Fetcher/Fees/Laws.antt =====
-- quote/clmm.rs, quote/damm_v2.rs, quote/dlmm.rs: what the parsers of the fees make of an account.
use flow_trades_solana.Base.{ℕ, ◌≡◌, List, leb, length, arith}
use flow_trades_solana.Clmm.Raydium.{RaydiumFeeExt}
use flow_trades_solana.Execution.{ok}
use flow_trades_solana.Fetcher.Reading.{accepted, outcome, expected, accepted_value}
use flow_trades_solana.Fetcher.Fees.{
  parse_dynamic_fee, parse_long_ext, parse_raydium_fee_ext, parse_damm_fees, parse_dlmm_pair,
}

outcome_fee_ext : (d : List ℕ) → outcome (parse_raydium_fee_ext d) ≡ accepted
unfolding parse_raydium_fee_ext parse_long_ext parse_dynamic_fee
outcome_fee_ext d = ground arith

pub fee_ext_read : (d : List ℕ) → (f : RaydiumFeeExt) × (parse_raydium_fee_ext d ≡ ok f)
fee_ext_read d = accepted_value (parse_raydium_fee_ext d) (outcome_fee_ext d)

pub outcome_damm_fees : (d : List ℕ) → outcome (parse_damm_fees d) ≡ expected (leb 168 (length d))
unfolding parse_damm_fees
outcome_damm_fees d = ground arith

pub outcome_dlmm_pair : (d : List ℕ) → outcome (parse_dlmm_pair d) ≡ expected (leb 904 (length d))
unfolding parse_dlmm_pair
outcome_dlmm_pair d = ground arith
