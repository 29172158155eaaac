-- ===== src/Execution/Wrap/Tests.antt =====
-- execution/router.rs: two hops of one program under the router's layout with the output mint. The derived addresses are
-- the lengths of the first seeds.
use flow_trades_solana.Base.{
  ℕ, ◌≡◌, ◌↔◌, refl, true, false, none, some, List, [], ◌∷◌, map, length, get_elem?, arith,
}
use flow_trades_solana.Base.Bytes.{Pubkey}
use flow_trades_solana.Registry.{member}
use flow_trades_solana.Execution.{writable, readonly, Instruction, Result, ok, err}
use flow_trades_solana.Execution.Wrap.{
  RouterConfig, wrap_swap, swap_accounts, swap_data, layout, mint_account, dex_accounts,
  new_programs, integrator_account, Refusal, expected_token_accounts,
}
use flow_trades_solana.Execution.Wrap.Reading.{hop_of, read_swap}
use flow_trades_solana.Execution.Wrap.Laws.{Reason, wrap_swap_refused, read_swap-wrap_swap}
use flow_trades_solana.Execution.Wrap.Accounts.{wrap_swap_accounts}
use flow_trades_solana.Registry.Laws.{Distinct}

abbrev derived : (seeds : List (List ℕ)) → (program_id : Pubkey) → Pubkey × ℕ
derived [] p = (0, 255)
derived (seed ∷ seeds) p = (length seed, 255)

abbrev config : RouterConfig
config = record { program_id = 77; treasury_wallet = 5; referral_wallet = some 6; fee_bps = 50 }

abbrev hops : List Instruction
hops =
    record {
      program_id = 9;
      accounts = writable 21 false ∷ readonly 22 false ∷ [];
      bytes = 1 ∷ 2 ∷ 3 ∷ [];
    }
    ∷ record { program_id = 9; accounts = writable 23 false ∷ []; bytes = [] }
    ∷ []

abbrev tokens : List Pubkey
tokens = 11 ∷ 12 ∷ 13 ∷ []

abbrev result : Result Refusal Instruction
result = wrap_swap derived config 1 tokens 31 (some 32) hops 1_000 500 8 14

abbrev ix : Instruction
ix = record {
  program_id = 77;
  accounts = swap_accounts derived config 1 tokens 31 (some 32) hops 8 14;
  bytes = swap_data hops 1_000 500;
}

accepted : result ≡ ok ix
unfolding wrap_swap
accepted = refl

length-accounts : length ix.accounts ≡ 14
unfolding swap_accounts dex_accounts new_programs integrator_account mint_account layout member
length-accounts = refl

wrap_swap_refused_example :
    (wrap_swap derived config 1 (11 ∷ []) 31 none hops 1_000 500 8 14
      ≡ err (expected_token_accounts 2 1))
    ↔ Reason derived config 1 (11 ∷ []) 31 none hops 1_000 500 8 14 (expected_token_accounts 2 1)
wrap_swap_refused_example =
    wrap_swap_refused derived config 1 (11 ∷ []) 31 none hops 1_000 500 8 14
      (expected_token_accounts 2 1)

read_swap-wrap_swap_example : read_swap ix.bytes ≡ some (map hop_of hops, 1_000, 500)
read_swap-wrap_swap_example =
    read_swap-wrap_swap derived config 1 tokens 31 (some 32) hops 1_000 500 8 14 accepted
      (omega arith) (omega arith) (omega arith) (omega arith)

wrap_swap_accounts_example :
    (get_elem? ix.accounts 0 ≡ some (readonly 1 true))
    × (get_elem? ix.accounts 2 ≡ some (writable 12 false))
    × (get_elem? ix.accounts 4 ≡ some (readonly 6 false))
    × (get_elem? ix.accounts 5 ≡ some (writable 31 false))
    × (get_elem? ix.accounts 6 ≡ some (writable 32 false))
    × (get_elem? ix.accounts 7 ≡ some (readonly 8 false))
    × (get_elem? ix.accounts 8 ≡ some (readonly 14 false))
    × (get_elem? ix.accounts 11 ≡ some (writable 23 false))
    × Distinct (new_programs [] hops)
    × ((x : Pubkey) → member x (new_programs [] hops) ≡ member x (9 ∷ 9 ∷ []))
    × (get_elem? ix.accounts 12 ≡ some (readonly 9 false))
    × (get_elem? ix.accounts 13 ≡ some (readonly 10 false))
    × (length ix.accounts ≡ 14)
unfolding new_programs member
wrap_swap_accounts_example =
    wrap_swap_accounts derived config 1 tokens 31 (some 32) hops 8 14 1_000 500 1 12 1 0
      (record { program_id = 9; accounts = writable 23 false ∷ []; bytes = [] }) (writable 23 false)
      0 9 accepted refl refl refl refl
