-- ===== src/Fetcher/Meteora.antt =====
-- pool/fetcher.rs: the parsers of the Meteora pools that need no other account. The addresses that a program derives are
-- found by a library, a parameter here.
pub mod Laws
use flow_trades_solana.Base.{
  ℕ, zero, suc, ◌+◌, ◌*◌, Bool, true, false, not, ◌||◌, ◌&&◌, Option, none, some, List, [], ◌∷◌,
  ltb, leb, ◌==◌, if◌then◌else◌, length, min, u64_max,
}
use flow_trades_solana.Base.Bytes.{Pubkey, signed, equal_bytes}
use flow_trades_solana.Base.Int.{ℤ, pos, negsuc, ◌+ℤ◌, ◌*ℤ◌, div_euclid, wrap_i32}
use flow_trades_solana.Base.Wire.{to_be, to_le_bytes, key_bytes}
use flow_trades_solana.Byreal.Inputs.{Account}
use flow_trades_solana.Execution.{ok, err}
use flow_trades_solana.Fetcher.Reading.{
  Parsed, refused, panics, ◌>>=◌, ◌>>◌, reject_if, read_pubkey, key_slice, number, number_i32,
  number_or, number_i32_or, bytes_at, or_default, bits,
}
use flow_trades_solana.PoolState.{PoolState, meteora_dlmm, meteora_damm}
use flow_trades_solana.Fetcher.Fees.{parse_dlmm_pair, no_dlmm_pair, parse_damm_fees, no_damm_fees}

abbrev pub meteora_dlmm_prog_id : Pubkey
meteora_dlmm_prog_id = 0x4e9e12fbc84e826c932cce9e2640cce15590c1c6273b0925708ba3b8520b0bc

module _ (find_program_address : (seeds : List (List ℕ)) → (program_id : Pubkey) → Pubkey × ℕ) where
  -- From the seed `b"bin_array"`.
  pub bin_array_address : (pool : Pubkey) → ℤ → Pubkey
  bin_array_address pool index =
      (find_program_address
        ((98 ∷ 105 ∷ 110 ∷ 95 ∷ 97 ∷ 114 ∷ 114 ∷ 97 ∷ 121 ∷ [])
          ∷ key_bytes pool
          ∷ to_le_bytes 8 (bits 64 index)
          ∷ [])
        meteora_dlmm_prog_id).0

  -- `METEORA_DLMM_EVENT_AUTHORITY`, from `b"__event_authority"`.
  abbrev pub meteora_dlmm_event_authority : Pubkey
  meteora_dlmm_event_authority =
      (find_program_address
        ((95 ∷ 95 ∷ 101 ∷ 118 ∷ 101 ∷ 110 ∷ 116 ∷ 95 ∷ 97 ∷ 117 ∷ 116 ∷ 104 ∷ 111 ∷ 114 ∷ 105 ∷ 116
            ∷ 121 ∷ [])
          ∷ [])
        meteora_dlmm_prog_id).0

  pub parse_meteora_dlmm : Pubkey → Account → Parsed PoolState
  parse_meteora_dlmm pool account = do
    let d = account.bytes
    reject_if (ltb (length d) 584)
    active_id ← number_i32 d 76
    token_x_mint ← read_pubkey d 88
    token_y_mint ← read_pubkey d 120
    reserve_x ← read_pubkey d 152
    reserve_y ← read_pubkey d 184
    oracle ← read_pubkey d 552
    let bin_idx = div_euclid active_id 70
    pair ← or_default no_dlmm_pair (parse_dlmm_pair d)
    ok (
        meteora_dlmm (record {
          token_x_mint = token_x_mint;
          token_y_mint = token_y_mint;
          reserve_x = reserve_x;
          reserve_y = reserve_y;
          oracle = oracle;
          pair = pair;
          lb_pair = pool;
          bin_array_bitmap_extension = meteora_dlmm_prog_id;
          host_fee_in = meteora_dlmm_prog_id;
          event_authority = meteora_dlmm_event_authority;
          bin_arrays =
              bin_array_address pool bin_idx
              ∷ bin_array_address pool (bin_idx +ℤ negsuc 0)
              ∷ bin_array_address pool (bin_idx +ℤ pos 1)
              ∷ [];
        }))

  pub parse_meteora_damm : Pubkey → Account → Parsed PoolState
  parse_meteora_damm pool account = do
    let d = account.bytes
    reject_if (ltb (length d) 296)
    token_a_mint ← read_pubkey d 168
    token_b_mint ← read_pubkey d 200
    token_a_vault ← read_pubkey d 232
    token_b_vault ← read_pubkey d 264
    let whole = leb 485 (length d)
    fees ← or_default no_damm_fees (parse_damm_fees d)
    ok (
        meteora_damm (record {
          token_a_mint = token_a_mint;
          token_b_mint = token_b_mint;
          token_a_vault = token_a_vault;
          token_b_vault = token_b_vault;
          fees = fees;
          pool = pool;
          liquidity = number_or 0 d 360 16;
          sqrt_price = number_or 0 d 456 16;
          sqrt_min_price = number_or 0 d 424 16;
          sqrt_max_price = number_or 0 d 440 16;
          token_a_amount = number_or 0 d 680 8;
          token_b_amount = number_or 0 d 688 8;
          activation_point = number_or 0 d 472 8;
          activation_type = if whole then number_or 0 d 480 1 else 0;
          collect_fee_mode = if whole then number_or 0 d 484 1 else 0;
          pool_status = if whole then number_or 0 d 481 1 else 0;
        }))
