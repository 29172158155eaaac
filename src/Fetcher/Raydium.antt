-- ===== src/Fetcher/Raydium.antt =====
-- pool/fetcher.rs: the parsers of the Raydium pools. The addresses that a program derives are found by a library, a
-- parameter here; the bitmap of the initialized tick arrays that a concentrated pool records is not modelled.
pub mod Laws
use flow_trades_solana.Base.{
  ℕ, zero, suc, ◌+◌, ◌*◌, Bool, true, false, not, ◌||◌, ◌&&◌, Option, none, some, List, [], ◌∷◌,
  ltb, leb, ◌==◌, if◌then◌else◌, length, min, u64_max,
}
use flow_trades_solana.Base.Bytes.{Pubkey, signed, equal_bytes}
use flow_trades_solana.Base.Int.{ℤ, pos, negsuc, ◌+ℤ◌, ◌*ℤ◌, div_euclid, wrap_i32}
use flow_trades_solana.Base.Wire.{to_be, to_le_bytes, key_bytes}
use flow_trades_solana.Byreal.Inputs.{Account}
use flow_trades_solana.Execution.{ok, err}
use flow_trades_solana.Fetcher.Reading.{
  Parsed, refused, panics, ◌>>=◌, ◌>>◌, reject_if, read_pubkey, key_slice, number, number_i32,
  number_or, number_i32_or, bytes_at, or_default, bits,
}
use flow_trades_solana.LaunchLab.{LaunchLabCurve}
use flow_trades_solana.PoolState.{PoolState, raydium_v4, raydium_cpmm, raydium_clmm, raydium_lp}
use flow_trades_solana.Fetcher.Fees.{parse_raydium_fee_ext}

abbrev pub raydium_cpmm_prog_id : Pubkey
raydium_cpmm_prog_id = 0xa92a5a8b4f295952842550aa93fd5b95b5ace6a8eb920c93942e43690c20ec73

abbrev pub raydium_cl_prog_id : Pubkey
raydium_cl_prog_id = 0xa5d5ca9e04cf5db590b714ba2fe32cb159133fc1c192b72257fd07d39cb0401e

abbrev pub raydium_lp_prog_id : Pubkey
raydium_lp_prog_id = 0x5043b954dca26e1ef91b52c4f8f89af8a6f5ac8c62156f171cf0f21ac51c922

abbrev pub raydium_v4_prog_id : Pubkey
raydium_v4_prog_id = 0x4bd949c43602c33f207790ed16a3524ca1b9975cf121a2a90cffec7df8b68acd

module _ (find_program_address : (seeds : List (List ℕ)) → (program_id : Pubkey) → Pubkey × ℕ) where
  -- `RAYDIUM_V4_AUTHORITY`, from `b"amm authority"`.
  abbrev pub raydium_v4_authority : Pubkey
  raydium_v4_authority =
      (find_program_address
        ((97 ∷ 109 ∷ 109 ∷ 32 ∷ 97 ∷ 117 ∷ 116 ∷ 104 ∷ 111 ∷ 114 ∷ 105 ∷ 116 ∷ 121 ∷ []) ∷ [])
        raydium_v4_prog_id).0

  pub parse_raydium_v4 : Pubkey → Account → Parsed PoolState
  parse_raydium_v4 pool account = do
    let d = account.bytes
    reject_if (not (account.owner == raydium_v4_prog_id))
    reject_if (ltb (length d) 752)
    swap_fee_numerator ← number d 176 8
    swap_fee_denominator ← number d 184 8
    reject_if (swap_fee_denominator == 0 || leb swap_fee_denominator swap_fee_numerator)
    coin_vault ← read_pubkey d 336
    pc_vault ← read_pubkey d 368
    coin_mint ← read_pubkey d 400
    pc_mint ← read_pubkey d 432
    need_take_pnl_coin ← number d 192 8
    need_take_pnl_pc ← number d 200 8
    status ← number d 0 8
    pool_open_time ← number d 224 8
    ok (
        raydium_v4 (record {
          amm_id = pool;
          authority = raydium_v4_authority;
          coin_vault = coin_vault;
          pc_vault = pc_vault;
          coin_mint = coin_mint;
          pc_mint = pc_mint;
          swap_fee_numerator = swap_fee_numerator;
          swap_fee_denominator = swap_fee_denominator;
          need_take_pnl_coin = need_take_pnl_coin;
          need_take_pnl_pc = need_take_pnl_pc;
          status = status;
          pool_open_time = pool_open_time;
        }))

  -- `RAYDIUM_CPMM_AUTHORITY`, from `b"vault_and_lp_mint_auth_seed"`.
  abbrev pub raydium_cpmm_authority : Pubkey
  raydium_cpmm_authority =
      (find_program_address
        ((118 ∷ 97 ∷ 117 ∷ 108 ∷ 116 ∷ 95 ∷ 97 ∷ 110 ∷ 100 ∷ 95 ∷ 108 ∷ 112 ∷ 95 ∷ 109 ∷ 105 ∷ 110
            ∷ 116 ∷ 95 ∷ 97 ∷ 117 ∷ 116 ∷ 104 ∷ 95 ∷ 115 ∷ 101 ∷ 101 ∷ 100 ∷ [])
          ∷ [])
        raydium_cpmm_prog_id).0

  pub parse_raydium_cpmm : Pubkey → Account → Parsed PoolState
  parse_raydium_cpmm pool account = do
    let d = account.bytes
    reject_if (ltb (length d) 329)
    config ← read_pubkey d 8
    token_0_vault ← read_pubkey d 72
    token_1_vault ← read_pubkey d 104
    token_0_mint ← read_pubkey d 168
    token_1_mint ← read_pubkey d 200
    observation ← read_pubkey d 296
    ok (
        raydium_cpmm (record {
          config = config;
          token_0_vault = token_0_vault;
          token_1_vault = token_1_vault;
          token_0_mint = token_0_mint;
          token_1_mint = token_1_mint;
          observation = observation;
          pool = pool;
          authority = raydium_cpmm_authority;
          trade_fee_bps = 0;
          protocol_fees_0 = number_or 0 d 341 8;
          protocol_fees_1 = number_or 0 d 349 8;
          fund_fees_0 = number_or 0 d 357 8;
          fund_fees_1 = number_or 0 d 365 8;
          creator_fee_ppm = 0;
          enable_creator_fee = not (number_or 0 d 389 1 == 0);
          creator_fee_on = number_or 0 d 390 1;
        }))

  -- The product wraps in a release build; the seed is `b"tick_array"`.
  pub derive_tick_array :
      (program_id pool : Pubkey) → (tick_current : ℤ) → (tick_spacing : ℕ) → (offset : ℤ) → Pubkey
  derive_tick_array program_id pool tick_current tick_spacing offset =
      let ticks_per_array = 60 * tick_spacing in
      let start =
        wrap_i32 ((div_euclid tick_current ticks_per_array +ℤ offset) *ℤ ticks_per_array) in
      let start_index : ℤ = if ticks_per_array == 0 then pos 0 else start in
      (find_program_address
        ((116 ∷ 105 ∷ 99 ∷ 107 ∷ 95 ∷ 97 ∷ 114 ∷ 114 ∷ 97 ∷ 121 ∷ [])
          ∷ key_bytes pool
          ∷ to_be 4 (bits 32 start_index)
          ∷ [])
        program_id).0

  pub parse_raydium_clmm : Pubkey → Account → Parsed PoolState
  parse_raydium_clmm pool account = do
    let d = account.bytes
    reject_if (ltb (length d) 233)
    amm_config ← read_pubkey d 9
    token_mint_0 ← read_pubkey d 73
    token_mint_1 ← read_pubkey d 105
    token_vault_0 ← read_pubkey d 137
    token_vault_1 ← read_pubkey d 169
    observation ← read_pubkey d 201
    let tick_spacing = number_or 1 d 235 2
    let tick_current = number_i32_or (pos 0) d 269
    let array_at = derive_tick_array raydium_cl_prog_id pool tick_current tick_spacing
    fee_ext ← parse_raydium_fee_ext d
    ok (
        raydium_clmm (record {
          amm_config = amm_config;
          token_mint_0 = token_mint_0;
          token_mint_1 = token_mint_1;
          token_vault_0 = token_vault_0;
          token_vault_1 = token_vault_1;
          observation = observation;
          fee_ext = fee_ext;
          pool = pool;
          tick_array_0 = array_at (pos 0);
          tick_array_1 = array_at (negsuc 0);
          tick_array_2 = array_at (pos 1);
          tick_current = tick_current;
          tick_spacing = pos tick_spacing;
          sqrt_price_x64 = number_or 0 d 253 16;
          liquidity = number_or 0 d 237 16;
          fee_rate = 2_500;
        }))

  -- `RAYDIUM_LP_AUTHORITY`, from `b"vault_auth_seed"`.
  abbrev pub raydium_lp_authority : Pubkey
  raydium_lp_authority =
      (find_program_address
        ((118 ∷ 97 ∷ 117 ∷ 108 ∷ 116 ∷ 95 ∷ 97 ∷ 117 ∷ 116 ∷ 104 ∷ 95 ∷ 115 ∷ 101 ∷ 101 ∷ 100 ∷ [])
          ∷ [])
        raydium_lp_prog_id).0

  curve_of : List ℕ → Parsed LaunchLabCurve
  curve_of d = do
    status ← number d 17 1
    virtual_base ← number d 37 8
    virtual_quote ← number d 45 8
    real_base ← number d 53 8
    real_quote ← number d 61 8
    total_base_sell ← number d 29 8
    total_quote_fund_raising ← number d 69 8
    ok (record {
      status = status;
      curve_type = 0;
      virtual_base = virtual_base;
      virtual_quote = virtual_quote;
      real_base = real_base;
      real_quote = real_quote;
      total_base_sell = total_base_sell;
      total_quote_fund_raising = total_quote_fund_raising;
      protocol_fee_rate = 0;
      platform_fee_rate = 0;
      creator_fee_rate = 0;
    })

  pub parse_raydium_lp : Pubkey → Account → Parsed PoolState
  parse_raydium_lp pool account = do
    let d = account.bytes
    reject_if (ltb (length d) 365)
    config_id ← read_pubkey d 141
    platform_id ← read_pubkey d 173
    base_mint ← read_pubkey d 205
    quote_mint ← read_pubkey d 237
    base_vault ← read_pubkey d 269
    quote_vault ← read_pubkey d 301
    creator ← read_pubkey d 333
    curve ← curve_of d
    ok (
        raydium_lp (record {
          config_id = config_id;
          platform_id = platform_id;
          base_mint = base_mint;
          quote_mint = quote_mint;
          base_vault = base_vault;
          quote_vault = quote_vault;
          creator = creator;
          curve = curve;
          pool_state = pool;
          authority = raydium_lp_authority;
        }))
