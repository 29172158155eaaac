-- ===== src/Fetcher/Tests.antt =====
-- pool/fetcher.rs: accounts of zeros.
use flow_trades_solana.Base.{ℕ, zero, suc, ◌≡◌, List, [], ◌∷◌, length}
use flow_trades_solana.Base.Bytes.{Pubkey}
use flow_trades_solana.PoolType
use flow_trades_solana.Fetcher.{parse_pool_state_from_bytes}
use flow_trades_solana.Fetcher.Reading.{accepted, outcome}
use flow_trades_solana.Fetcher.Laws.{parse_pool_state_from_bytes_lem}

abbrev derived : (seeds : List (List ℕ)) → (program_id : Pubkey) → Pubkey × ℕ
derived seeds p = (length seeds, 255)

abbrev zeros : ℕ → List ℕ
zeros zero = []
zeros (suc n) = 0 ∷ zeros n

parse_pool_state_from_bytes_lem_example :
    outcome (parse_pool_state_from_bytes derived (λ d. 3) PoolType.flash_trade 7 (zeros 136) 9)
    ≡ accepted
parse_pool_state_from_bytes_lem_example =
    parse_pool_state_from_bytes_lem derived (λ d. 3) PoolType.flash_trade 7 (zeros 136) 9
