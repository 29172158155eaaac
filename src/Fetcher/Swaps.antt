-- ===== src/Fetcher/Swaps.antt =====
-- pool/fetcher.rs: the parsers of the token-swap forks, and of the pools with few fields. The addresses that a program
-- derives are found by a library, a parameter here; the name in an error's text is left out.
pub mod Laws
use flow_trades_solana.Base.{
  ℕ, zero, suc, ◌+◌, ◌*◌, Bool, true, false, not, ◌||◌, ◌&&◌, Option, none, some, List, [], ◌∷◌,
  ltb, leb, ◌==◌, if◌then◌else◌, length, min, u64_max,
}
use flow_trades_solana.Base.Bytes.{Pubkey, signed, equal_bytes}
use flow_trades_solana.Base.Int.{ℤ, pos, negsuc, ◌+ℤ◌, ◌*ℤ◌, div_euclid, wrap_i32}
use flow_trades_solana.Base.Wire.{to_be, to_le_bytes, key_bytes}
use flow_trades_solana.Byreal.Inputs.{Account}
use flow_trades_solana.Execution.{ok, err}
use flow_trades_solana.Fetcher.Reading.{
  Parsed, refused, panics, ◌>>=◌, ◌>>◌, reject_if, read_pubkey, key_slice, number, number_i32,
  number_or, number_i32_or, bytes_at, or_default, bits,
}
use flow_trades_solana.PoolState.Fees.{SplSwapFees, no_swap_fees, parse_swap_fees}
use flow_trades_solana.PoolState.{
  PoolState, flux_beam, flash_trade, defi_tuna_pools, saros, dooar, pumpup,
}

abbrev pub fluxbeam_prog_id : Pubkey
fluxbeam_prog_id = 0xd500c8ab3ffad0a86bab5f536531c6dd5e62b0626d33cdeddf82ead7eec50e46

abbrev pub saros_prog_id : Pubkey
saros_prog_id = 0x684da16a689c2c3896a8411715be9432eec1ca71a1ce2087286c67677cf65bd

abbrev pub dooar_prog_id : Pubkey
dooar_prog_id = 0xbe49a1eeb81bf889c158fd8b7496ff9141d4aa433eae3948d0d8488f78951b78

abbrev pub pumpup_prog_id : Pubkey
pumpup_prog_id = 0x5cbe099c67dd566123afb4995e06df4a9a43790a68b1902039650bd15cbc662

abbrev pub token_program_id : Pubkey
token_program_id = 0x6ddf6e1d765a193d9cbe146ceeb79ac1cb485ed5f5b37913a8cf5857eff00a9

abbrev pub pumpup_pool_discriminator : List ℕ
pumpup_pool_discriminator = 241 ∷ 154 ∷ 109 ∷ 4 ∷ 17 ∷ 177 ∷ 109 ∷ 188 ∷ []

abbrev pub pumpup_pool_min_size : ℕ
pumpup_pool_min_size = 261

pub record SplTokenSwapFields : Type 0 where
  pub pool_token_program : Option Pubkey
  pub token_a_vault : Pubkey
  pub token_b_vault : Pubkey
  pub pool_mint : Pubkey
  pub token_a_mint : Pubkey
  pub token_b_mint : Pubkey
  pub fee_account : Pubkey
  pub authority : Pubkey

-- `SplSwapFees::parse(…).unwrap_or_default()`.
abbrev pub swap_fees_of : List ℕ → SplSwapFees
swap_fees_of d = elim (parse_swap_fees d) [ none ↦ no_swap_fees | some f ↦ f ]

abbrev program_read : Bool → List ℕ → Parsed (Option Pubkey)
program_read true d = read_pubkey d 3 >>= λ k. ok (some k)
program_read false d = ok none

module _ (find_program_address : (seeds : List (List ℕ)) → (program_id : Pubkey) → Pubkey × ℕ) where
  pub parse_spl_token_swap :
      (pool : Pubkey)
      → Account
      → (program_id : Pubkey) → (read_token_program : Bool) → Parsed SplTokenSwapFields
  parse_spl_token_swap pool account program_id read_token_program = do
    let d = account.bytes
    reject_if (ltb (length d) 227)
    pool_token_program ← program_read read_token_program d
    token_a_vault ← read_pubkey d 35
    token_b_vault ← read_pubkey d 67
    pool_mint ← read_pubkey d 99
    token_a_mint ← read_pubkey d 131
    token_b_mint ← read_pubkey d 163
    fee_account ← read_pubkey d 195
    ok (record {
      pool_token_program = pool_token_program;
      token_a_vault = token_a_vault;
      token_b_vault = token_b_vault;
      pool_mint = pool_mint;
      token_a_mint = token_a_mint;
      token_b_mint = token_b_mint;
      fee_account = fee_account;
      authority = (find_program_address (key_bytes pool ∷ []) program_id).0;
    })

  pub parse_fluxbeam : Pubkey → Account → Parsed PoolState
  parse_fluxbeam pool account = do
    f ← parse_spl_token_swap pool account fluxbeam_prog_id true
    ok (
        flux_beam (record {
          pool = pool;
          authority = f.authority;
          token_a_vault = f.token_a_vault;
          token_b_vault = f.token_b_vault;
          pool_mint = f.pool_mint;
          fee_account = f.fee_account;
          fees = swap_fees_of account.bytes;
          token_a_mint = f.token_a_mint;
          token_b_mint = f.token_b_mint;
          pool_token_program = elim f.pool_token_program [ none ↦ token_program_id | some k ↦ k ];
        }))

  pub parse_saros : Pubkey → Account → Parsed PoolState
  parse_saros pool account = do
    f ← parse_spl_token_swap pool account saros_prog_id false
    ok (
        saros (record {
          pool = pool;
          authority = f.authority;
          token_a_vault = f.token_a_vault;
          token_b_vault = f.token_b_vault;
          pool_mint = f.pool_mint;
          fee_account = f.fee_account;
          fees = swap_fees_of account.bytes;
          token_a_mint = f.token_a_mint;
          token_b_mint = f.token_b_mint;
        }))

  pub parse_dooar : Pubkey → Account → Parsed PoolState
  parse_dooar pool account = do
    f ← parse_spl_token_swap pool account dooar_prog_id false
    ok (
        dooar (record {
          pool = pool;
          authority = f.authority;
          token_a_vault = f.token_a_vault;
          token_b_vault = f.token_b_vault;
          pool_mint = f.pool_mint;
          fee_account = f.fee_account;
          fees = swap_fees_of account.bytes;
          token_a_mint = f.token_a_mint;
          token_b_mint = f.token_b_mint;
        }))

pub parse_flash_trade : Pubkey → Account → Parsed PoolState
parse_flash_trade pool account = do
  let d = account.bytes
  reject_if (ltb (length d) 136)
  oracle ← read_pubkey d 8
  custody ← read_pubkey d 40
  token_mint ← read_pubkey d 72
  ok (
      flash_trade
        (record { oracle = oracle; custody = custody; token_mint = token_mint; pool = pool }))

pub parse_defituna_pools : Pubkey → Account → Parsed PoolState
parse_defituna_pools pool account = do
  let d = account.bytes
  reject_if (ltb (length d) 168)
  token_mint_a ← read_pubkey d 8
  token_mint_b ← read_pubkey d 40
  token_vault_a ← read_pubkey d 72
  token_vault_b ← read_pubkey d 104
  ok (
      defi_tuna_pools (record {
        token_mint_a = token_mint_a;
        token_mint_b = token_mint_b;
        token_vault_a = token_vault_a;
        token_vault_b = token_vault_b;
        pool = pool;
      }))

pub parse_pumpup : Pubkey → Account → Parsed PoolState
parse_pumpup pool account = do
  let d = account.bytes
  reject_if (not (account.owner == pumpup_prog_id))
  reject_if (ltb (length d) pumpup_pool_min_size)
  head ← bytes_at d 0 8
  reject_if (not (equal_bytes head pumpup_pool_discriminator))
  token_a_mint ← key_slice d 8
  token_b_mint ← key_slice d 40
  token_a_vault ← key_slice d 72
  token_b_vault ← key_slice d 104
  fee_recipient ← key_slice d 168
  token_a_reserve ← number d 200 8
  token_b_reserve ← number d 208 8
  fee_recipient2 ← key_slice d 227
  ok (
      pumpup (record {
        token_a_mint = token_a_mint;
        token_b_mint = token_b_mint;
        token_a_vault = token_a_vault;
        token_b_vault = token_b_vault;
        fee_recipient = fee_recipient;
        token_a_reserve = token_a_reserve;
        token_b_reserve = token_b_reserve;
        fee_recipient2 = fee_recipient2;
        pool = pool;
      }))
