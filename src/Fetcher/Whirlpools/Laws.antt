-- ===== src/Fetcher/Whirlpools/Laws.antt =====
-- pool/fetcher.rs: which accounts the parsers of the other pools with ticks accept.
use flow_trades_solana.Base.{ℕ, ◌&&◌, ◌≡◌, List, leb, length, arith, Bool-cases, inl, inr}
use flow_trades_solana.Base.Bytes.{Pubkey, take, equal_bytes, drop}
use flow_trades_solana.Byreal.Inputs.{Account}
use flow_trades_solana.Byreal.Inputs.Laws.{parse_long}
use flow_trades_solana.Fetcher.Reading.{outcome, expected}
use flow_trades_solana.Fetcher.Whirlpools.{
  byreal_pool_discriminator, parse_orca, parse_byreal, parse_defituna_fusion, parse_pancakeswap,
}

module _ (find_program_address : (seeds : List (List ℕ)) → (program_id : Pubkey) → Pubkey × ℕ) where
  pub outcome_orca :
      (pool : Pubkey) (a : Account)
      → outcome (parse_orca find_program_address pool a) ≡ expected (leb 296 (length a.bytes))
  unfolding parse_orca
  outcome_orca pool a = ground arith

module _ (sponsored_price_account : List ℕ → Pubkey) where
  pub outcome_byreal :
      (pool : Pubkey) (a : Account)
      → outcome (parse_byreal sponsored_price_account pool a)
        ≡ expected (
            leb 1_176 (length a.bytes)
            && equal_bytes (take 8 (drop 0 a.bytes)) byreal_pool_discriminator)
  unfolding parse_byreal
  outcome_byreal pool a = elim (Bool-cases (leb 1_176 (length a.bytes))) [
    | inl h ↦ let (f, e) = parse_long sponsored_price_account a.bytes h in ground (arith, e, h)
    | inr h ↦ ground (arith, h)
  ]

pub outcome_defituna_fusion :
    (pool : Pubkey) (a : Account)
    → outcome (parse_defituna_fusion pool a) ≡ expected (leb 187 (length a.bytes))
unfolding parse_defituna_fusion
outcome_defituna_fusion pool a = ground arith

pub outcome_pancakeswap :
    (pool : Pubkey) (a : Account)
    → outcome (parse_pancakeswap pool a) ≡ expected (leb 273 (length a.bytes))
unfolding parse_pancakeswap
outcome_pancakeswap pool a = ground arith
