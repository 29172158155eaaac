-- ===== src/Fetcher/Swaps/Laws.antt =====
-- pool/fetcher.rs: which accounts the parsers of the token-swap forks and the pools with few fields accept.
use flow_trades_solana.Base.{ℕ, ◌&&◌, ◌≡◌, List, leb, ◌==◌, length, arith}
use flow_trades_solana.Base.Bytes.{Pubkey, take, equal_bytes, drop}
use flow_trades_solana.Byreal.Inputs.{Account}
use flow_trades_solana.Fetcher.Reading.{outcome, expected}
use flow_trades_solana.Fetcher.Swaps.{
  pumpup_prog_id, pumpup_pool_discriminator, parse_spl_token_swap, parse_fluxbeam, parse_saros,
  parse_dooar, parse_flash_trade, parse_defituna_pools, parse_pumpup,
}

module _ (find_program_address : (seeds : List (List ℕ)) → (program_id : Pubkey) → Pubkey × ℕ) where
  pub outcome_fluxbeam :
      (pool : Pubkey) (a : Account)
      → outcome (parse_fluxbeam find_program_address pool a) ≡ expected (leb 227 (length a.bytes))
  unfolding parse_fluxbeam parse_spl_token_swap
  outcome_fluxbeam pool a = ground arith

  pub outcome_saros :
      (pool : Pubkey) (a : Account)
      → outcome (parse_saros find_program_address pool a) ≡ expected (leb 227 (length a.bytes))
  unfolding parse_saros parse_spl_token_swap
  outcome_saros pool a = ground arith

  pub outcome_dooar :
      (pool : Pubkey) (a : Account)
      → outcome (parse_dooar find_program_address pool a) ≡ expected (leb 227 (length a.bytes))
  unfolding parse_dooar parse_spl_token_swap
  outcome_dooar pool a = ground arith

pub outcome_flash_trade :
    (pool : Pubkey) (a : Account)
    → outcome (parse_flash_trade pool a) ≡ expected (leb 136 (length a.bytes))
unfolding parse_flash_trade
outcome_flash_trade pool a = ground arith

pub outcome_defituna_pools :
    (pool : Pubkey) (a : Account)
    → outcome (parse_defituna_pools pool a) ≡ expected (leb 168 (length a.bytes))
unfolding parse_defituna_pools
outcome_defituna_pools pool a = ground arith

pub outcome_pumpup :
    (pool : Pubkey) (a : Account)
    → outcome (parse_pumpup pool a)
      ≡ expected (
          a.owner == pumpup_prog_id
          && leb 261 (length a.bytes)
          && equal_bytes (take 8 (drop 0 a.bytes)) pumpup_pool_discriminator)
unfolding parse_pumpup
outcome_pumpup pool a = ground arith
