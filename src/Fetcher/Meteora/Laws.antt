-- ===== src/Fetcher/Meteora/Laws.antt =====
-- pool/fetcher.rs: which accounts the parsers of the Meteora pools accept.
use flow_trades_solana.Base.{ℕ, ◌≡◌, List, leb, length, arith}
use flow_trades_solana.Base.Bytes.{Pubkey}
use flow_trades_solana.Byreal.Inputs.{Account}
use flow_trades_solana.Fetcher.Reading.{outcome, expected, defaulted}
use flow_trades_solana.Fetcher.Fees.{parse_dlmm_pair, no_dlmm_pair, parse_damm_fees, no_damm_fees}
use flow_trades_solana.Fetcher.Fees.Laws.{outcome_damm_fees, outcome_dlmm_pair}
use flow_trades_solana.Fetcher.Meteora.{parse_meteora_dlmm, parse_meteora_damm}

module _ (find_program_address : (seeds : List (List ℕ)) → (program_id : Pubkey) → Pubkey × ℕ) where
  pub outcome_meteora_dlmm :
      (pool : Pubkey) (a : Account)
      → outcome (parse_meteora_dlmm find_program_address pool a)
        ≡ expected (leb 584 (length a.bytes))
  unfolding parse_meteora_dlmm
  outcome_meteora_dlmm pool a =
      let (p, e) = defaulted no_dlmm_pair (parse_dlmm_pair a.bytes) _ (outcome_dlmm_pair a.bytes) in
      ground (arith, e)

  pub outcome_meteora_damm :
      (pool : Pubkey) (a : Account)
      → outcome (parse_meteora_damm find_program_address pool a)
        ≡ expected (leb 296 (length a.bytes))
  unfolding parse_meteora_damm
  outcome_meteora_damm pool a =
      let (p, e) = defaulted no_damm_fees (parse_damm_fees a.bytes) _ (outcome_damm_fees a.bytes) in
      ground (arith, e)
