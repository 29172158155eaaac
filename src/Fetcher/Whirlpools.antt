-- ===== src/Fetcher/Whirlpools.antt =====
-- pool/fetcher.rs: the parsers of the other pools with ticks. The addresses that a program derives are found by a library, a
-- parameter here; the bitmap of the initialized tick arrays that a pool records is not modelled.
pub mod Laws
use flow_trades_solana.Base.{
  ℕ, zero, suc, ◌+◌, ◌*◌, Bool, true, false, not, ◌||◌, ◌&&◌, Option, none, some, List, [], ◌∷◌,
  ltb, leb, ◌==◌, if◌then◌else◌, length, min, u64_max,
}
use flow_trades_solana.Base.Bytes.{Pubkey, signed, equal_bytes}
use flow_trades_solana.Base.Int.{ℤ, pos, negsuc, ◌+ℤ◌, ◌*ℤ◌, div_euclid, wrap_i32}
use flow_trades_solana.Base.Wire.{to_be, to_le_bytes, key_bytes}
use flow_trades_solana.Byreal.Inputs.{Account}
use flow_trades_solana.Execution.{ok, err}
use flow_trades_solana.Fetcher.Reading.{
  Parsed, refused, panics, ◌>>=◌, ◌>>◌, reject_if, read_pubkey, key_slice, number, number_i32,
  number_or, number_i32_or, bytes_at, or_default, bits,
}
use flow_trades_solana.Byreal.Inputs
use flow_trades_solana.PoolState.{PoolState, orca, byreal, defi_tuna_fusion, pancake_swap}

abbrev pub orca_prog_id : Pubkey
orca_prog_id = 0xe03685f8e909053e458121c66f5a76aedc7706aa11c82f8aa952a8f2b7879a9

abbrev pub byreal_pool_discriminator : List ℕ
byreal_pool_discriminator = 0xf7 ∷ 0xed ∷ 0xe3 ∷ 0xf5 ∷ 0xd7 ∷ 0xc3 ∷ 0xde ∷ 0x46 ∷ []

-- An optional value, where its absence is an error.
abbrev pub or_refused {ℓ} : {A : Type ℓ} → Option A → Parsed A
or_refused none = err refused
or_refused (some a) = ok a

module _ (find_program_address : (seeds : List (List ℕ)) → (program_id : Pubkey) → Pubkey × ℕ) where
  -- The oracle is derived from the seed `b"oracle"`.
  pub parse_orca : Pubkey → Account → Parsed PoolState
  parse_orca pool account = do
    let d = account.bytes
    reject_if (ltb (length d) 296)
    token_mint_a ← read_pubkey d 101
    token_vault_a ← read_pubkey d 133
    token_mint_b ← read_pubkey d 181
    token_vault_b ← read_pubkey d 213
    ok (
        orca (record {
          token_mint_a = token_mint_a;
          token_vault_a = token_vault_a;
          token_mint_b = token_mint_b;
          token_vault_b = token_vault_b;
          whirlpool = pool;
          oracle =
              (find_program_address ((111 ∷ 114 ∷ 97 ∷ 99 ∷ 108 ∷ 101 ∷ []) ∷ key_bytes pool ∷ [])
                orca_prog_id).0;
          tick_current = number_i32_or (pos 0) d 81;
          tick_spacing = pos (number_or 1 d 41 2);
          sqrt_price_x64 = number_or 0 d 65 16;
          liquidity = number_or 0 d 49 16;
          fee_rate = number_or 0 d 45 2;
        }))

module _ (sponsored_price_account : List ℕ → Pubkey) where
  pub parse_byreal : Pubkey → Account → Parsed PoolState
  parse_byreal pool account = do
    let d = account.bytes
    reject_if (ltb (length d) 1_176)
    head ← bytes_at d 0 8
    reject_if (not (equal_bytes head byreal_pool_discriminator))
    amm_config ← read_pubkey d 9
    token_mint_a ← read_pubkey d 73
    token_mint_b ← read_pubkey d 105
    token_vault_a ← read_pubkey d 137
    token_vault_b ← read_pubkey d 169
    observation ← read_pubkey d 201
    tick_spacing ← number d 235 2
    liquidity ← number d 237 16
    sqrt_price_x64 ← number d 253 16
    tick_current ← number_i32 d 269
    fee ← or_refused (Inputs.parse sponsored_price_account d)
    ok (
        byreal (record {
          amm_config = amm_config;
          token_mint_a = token_mint_a;
          token_mint_b = token_mint_b;
          token_vault_a = token_vault_a;
          token_vault_b = token_vault_b;
          observation = observation;
          liquidity = liquidity;
          sqrt_price_x64 = sqrt_price_x64;
          tick_current = tick_current;
          fee = fee;
          tick_spacing = pos tick_spacing;
          pool = pool;
          fee_rate = 2_500;
        }))

pub parse_defituna_fusion : Pubkey → Account → Parsed PoolState
parse_defituna_fusion pool account = do
  let d = account.bytes
  reject_if (ltb (length d) 187)
  token_mint_a ← read_pubkey d 11
  token_mint_b ← read_pubkey d 43
  token_vault_a ← read_pubkey d 75
  token_vault_b ← read_pubkey d 107
  tick_spacing ← number d 139 2
  tick_current_index ← number_i32 d 183
  ok (
      defi_tuna_fusion (record {
        token_mint_a = token_mint_a;
        token_mint_b = token_mint_b;
        token_vault_a = token_vault_a;
        token_vault_b = token_vault_b;
        tick_spacing = tick_spacing;
        tick_current_index = tick_current_index;
        pool = pool;
        fee_rate = number_or 0 d 143 2;
        liquidity = number_or 0 d 151 16;
        sqrt_price_x64 = number_or 0 d 167 16;
      }))

pub parse_pancakeswap : Pubkey → Account → Parsed PoolState
parse_pancakeswap pool account = do
  let d = account.bytes
  reject_if (ltb (length d) 273)
  amm_config ← read_pubkey d 9
  token_mint_a ← read_pubkey d 73
  token_mint_b ← read_pubkey d 105
  token_vault_a ← read_pubkey d 137
  token_vault_b ← read_pubkey d 169
  observation ← read_pubkey d 201
  tick_spacing ← number d 235 2
  liquidity ← number d 237 16
  sqrt_price_x64 ← number d 253 16
  tick_current ← number_i32 d 269
  ok (
      pancake_swap (record {
        amm_config = amm_config;
        token_mint_a = token_mint_a;
        token_mint_b = token_mint_b;
        token_vault_a = token_vault_a;
        token_vault_b = token_vault_b;
        observation = observation;
        liquidity = liquidity;
        sqrt_price_x64 = sqrt_price_x64;
        tick_current = tick_current;
        tick_spacing = pos tick_spacing;
        pool = pool;
        fee_rate = 2_500;
      }))
