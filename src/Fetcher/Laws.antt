-- ===== src/Fetcher/Laws.antt =====
-- pool/fetcher.rs: which accounts are parsed, for every type of pool.
use flow_trades_solana.Base.{ℕ, Bool, false, ◌&&◌, ◌≡◌, refl, List, leb, ltb, ◌==◌, length}
use flow_trades_solana.Base.Bytes.{Pubkey, take, drop, equal_bytes}
use flow_trades_solana.PoolType.{PoolType}
use flow_trades_solana.Fetcher.{parse_pool_state_from_bytes, parse_account}
use flow_trades_solana.Fetcher.Reading.{Outcome, outcome, expected, number_or}
use flow_trades_solana.Fetcher.Raydium.{raydium_v4_prog_id}
use flow_trades_solana.Fetcher.Raydium.Laws.{
  outcome_raydium_v4, outcome_raydium_cpmm, outcome_raydium_clmm, outcome_raydium_lp,
}
use flow_trades_solana.Fetcher.Meteora.Laws.{outcome_meteora_dlmm, outcome_meteora_damm}
use flow_trades_solana.Fetcher.Whirlpools.{byreal_pool_discriminator}
use flow_trades_solana.Fetcher.Whirlpools.Laws.{
  outcome_orca, outcome_byreal, outcome_defituna_fusion, outcome_pancakeswap,
}
use flow_trades_solana.Fetcher.Swaps.{pumpup_prog_id, pumpup_pool_discriminator}
use flow_trades_solana.Fetcher.Swaps.Laws.{
  outcome_fluxbeam, outcome_saros, outcome_dooar, outcome_flash_trade, outcome_defituna_pools,
  outcome_pumpup,
}

-- What an account of a type must have: its least size, and for some types its owner, discriminator or fee.
abbrev pub fits : PoolType → (owner : Pubkey) → List ℕ → Bool
fits PoolType.raydium_v4 owner d =
    owner == raydium_v4_prog_id
    && leb 752 (length d)
    && ltb (number_or 0 d 176 8) (number_or 0 d 184 8)
fits PoolType.raydium_cpmm owner d = leb 329 (length d)
fits PoolType.raydium_cl owner d = leb 233 (length d)
fits PoolType.raydium_lp owner d = leb 365 (length d)
fits PoolType.meteora_dlmm owner d = leb 584 (length d)
fits PoolType.meteora_damm owner d = leb 296 (length d)
fits PoolType.orca owner d = leb 296 (length d)
fits PoolType.flux_beam owner d = leb 227 (length d)
fits PoolType.flash_trade owner d = leb 136 (length d)
fits PoolType.byreal owner d =
    leb 1_176 (length d) && equal_bytes (take 8 (drop 0 d)) byreal_pool_discriminator
fits PoolType.defi_tuna_fusion owner d = leb 187 (length d)
fits PoolType.defi_tuna_pools owner d = leb 168 (length d)
fits PoolType.saros owner d = leb 227 (length d)
fits PoolType.pancake_swap owner d = leb 273 (length d)
fits PoolType.dooar owner d = leb 227 (length d)
fits PoolType.pumpup owner d =
    owner == pumpup_prog_id
    && leb 261 (length d)
    && equal_bytes (take 8 (drop 0 d)) pumpup_pool_discriminator
fits _ owner d = false

module _ (find_program_address : (seeds : List (List ℕ)) → (program_id : Pubkey) → Pubkey × ℕ)
    (sponsored_price_account : List ℕ → Pubkey) where
  abbrev parsed : PoolType → Pubkey → List ℕ → Pubkey → Outcome
  parsed t pool d owner =
      outcome
        (parse_pool_state_from_bytes find_program_address sponsored_price_account t pool d owner)

  -- No account makes the parser panic: for every type of pool, any bytes and any owner, the account is accepted where it has
  -- the least size, and the owner, the discriminator or the plausible fee that its type asks for, and is refused
  -- otherwise; an account of a type that needs other accounts is always refused.
  pub parse_pool_state_from_bytes_lem :
      (t : PoolType) (pool : Pubkey) (d : List ℕ) (owner : Pubkey)
      → parsed t pool d owner ≡ expected (fits t owner d)
  unfolding parse_pool_state_from_bytes parse_account
  parse_pool_state_from_bytes_lem PoolType.raydium_v4 pool d owner =
      outcome_raydium_v4 find_program_address pool (record { owner = owner; bytes = d })
  parse_pool_state_from_bytes_lem PoolType.raydium_cpmm pool d owner =
      outcome_raydium_cpmm find_program_address pool (record { owner = owner; bytes = d })
  parse_pool_state_from_bytes_lem PoolType.raydium_cl pool d owner =
      outcome_raydium_clmm find_program_address pool (record { owner = owner; bytes = d })
  parse_pool_state_from_bytes_lem PoolType.raydium_lp pool d owner =
      outcome_raydium_lp find_program_address pool (record { owner = owner; bytes = d })
  parse_pool_state_from_bytes_lem PoolType.meteora_dlmm pool d owner =
      outcome_meteora_dlmm find_program_address pool (record { owner = owner; bytes = d })
  parse_pool_state_from_bytes_lem PoolType.meteora_damm pool d owner =
      outcome_meteora_damm find_program_address pool (record { owner = owner; bytes = d })
  parse_pool_state_from_bytes_lem PoolType.orca pool d owner =
      outcome_orca find_program_address pool (record { owner = owner; bytes = d })
  parse_pool_state_from_bytes_lem PoolType.flux_beam pool d owner =
      outcome_fluxbeam find_program_address pool (record { owner = owner; bytes = d })
  parse_pool_state_from_bytes_lem PoolType.flash_trade pool d owner =
      outcome_flash_trade pool (record { owner = owner; bytes = d })
  parse_pool_state_from_bytes_lem PoolType.byreal pool d owner =
      outcome_byreal sponsored_price_account pool (record { owner = owner; bytes = d })
  parse_pool_state_from_bytes_lem PoolType.defi_tuna_fusion pool d owner =
      outcome_defituna_fusion pool (record { owner = owner; bytes = d })
  parse_pool_state_from_bytes_lem PoolType.defi_tuna_pools pool d owner =
      outcome_defituna_pools pool (record { owner = owner; bytes = d })
  parse_pool_state_from_bytes_lem PoolType.saros pool d owner =
      outcome_saros find_program_address pool (record { owner = owner; bytes = d })
  parse_pool_state_from_bytes_lem PoolType.pancake_swap pool d owner =
      outcome_pancakeswap pool (record { owner = owner; bytes = d })
  parse_pool_state_from_bytes_lem PoolType.dooar pool d owner =
      outcome_dooar find_program_address pool (record { owner = owner; bytes = d })
  parse_pool_state_from_bytes_lem PoolType.pumpup pool d owner =
      outcome_pumpup pool (record { owner = owner; bytes = d })
  parse_pool_state_from_bytes_lem _ pool d owner = refl
