-- ===== src/Fetcher/Raydium/Laws.antt =====
-- pool/fetcher.rs: which accounts the parsers of the Raydium pools accept.
use flow_trades_solana.Base.{
  ℕ, true, ◌&&◌, ◌≡◌, List, ltb, leb, ◌==◌, length, arith, Bool-cases, inl, inr,
}
use flow_trades_solana.Base.Bytes.{Pubkey}
use flow_trades_solana.Byreal.Inputs.{Account}
use flow_trades_solana.Fetcher.Reading.{accepted, outcome, expected, number_or, accepted_value}
use flow_trades_solana.LaunchLab.{LaunchLabCurve}
use flow_trades_solana.Execution.{ok}
use flow_trades_solana.Fetcher.Fees.Laws.{fee_ext_read}
use flow_trades_solana.Fetcher.Raydium.{
  raydium_v4_prog_id, parse_raydium_v4, parse_raydium_cpmm, parse_raydium_clmm, parse_raydium_lp,
  curve_of,
}

module _ (find_program_address : (seeds : List (List ℕ)) → (program_id : Pubkey) → Pubkey × ℕ) where
  pub outcome_raydium_v4 :
      (pool : Pubkey) (a : Account)
      → outcome (parse_raydium_v4 find_program_address pool a)
        ≡ expected (
            a.owner == raydium_v4_prog_id
            && leb 752 (length a.bytes)
            && ltb (number_or 0 a.bytes 176 8) (number_or 0 a.bytes 184 8))
  unfolding parse_raydium_v4
  outcome_raydium_v4 pool a = ground arith

  pub outcome_raydium_cpmm :
      (pool : Pubkey) (a : Account)
      → outcome (parse_raydium_cpmm find_program_address pool a)
        ≡ expected (leb 329 (length a.bytes))
  unfolding parse_raydium_cpmm
  outcome_raydium_cpmm pool a = ground arith

  pub outcome_raydium_clmm :
      (pool : Pubkey) (a : Account)
      → outcome (parse_raydium_clmm find_program_address pool a)
        ≡ expected (leb 233 (length a.bytes))
  unfolding parse_raydium_clmm
  outcome_raydium_clmm pool a = let (f, e) = fee_ext_read a.bytes in ground (arith, e)

  outcome_curve :
      (d : List ℕ)
      → leb 365 (length d) ≡ true
      → outcome (curve_of find_program_address d) ≡ accepted
  unfolding curve_of
  outcome_curve d h = ground (arith, h)

  curve_read :
      (d : List ℕ)
      → leb 365 (length d) ≡ true
      → (c : LaunchLabCurve) × (curve_of find_program_address d ≡ ok c)
  curve_read d h = accepted_value (curve_of find_program_address d) (outcome_curve d h)

  pub outcome_raydium_lp :
      (pool : Pubkey) (a : Account)
      → outcome (parse_raydium_lp find_program_address pool a) ≡ expected (leb 365 (length a.bytes))
  unfolding parse_raydium_lp
  outcome_raydium_lp pool a = elim (Bool-cases (leb 365 (length a.bytes))) [
    | inl h ↦ let (c, e) = curve_read a.bytes h in ground (arith, e, h)
    | inr h ↦ ground (arith, h)
  ]
