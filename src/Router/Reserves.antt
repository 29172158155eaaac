-- ===== src/Router/Reserves.antt =====
-- quote/router.rs: the reserves of a pool, from the mirrored balances of its vaults or from its state.
use flow_trades_solana.Base.{
  ℕ, ◌+◌, ◌&&◌, Option, none, some, ◌==◌, if◌then◌else◌, ◌>>=◌, ◌>>◌, refuse_if, min, u128_max,
}
use flow_trades_solana.Base.Bytes.{Pubkey}
use flow_trades_solana.PoolState.{PoolState}
use flow_trades_solana.AccountMirror.{AccountMirror, get_vault_balance}

abbrev pub sol_native_mint : Pubkey
sol_native_mint = 0x69b8857feab8184fb687f634618c035dac439dc1aeb3b5598a0f00000000001

pub extract_vault_mints : PoolState → Option (Pubkey × Pubkey × Pubkey × Pubkey)
extract_vault_mints (PoolState.raydium_cpmm s) =
    some (s.token_0_vault, s.token_1_vault, s.token_0_mint, s.token_1_mint)
extract_vault_mints (PoolState.raydium_lp s) =
    some (s.base_vault, s.quote_vault, s.base_mint, s.quote_mint)
extract_vault_mints (PoolState.raydium_v4 s) =
    some (s.coin_vault, s.pc_vault, s.coin_mint, s.pc_mint)
extract_vault_mints (PoolState.meteora s) =
    some (s.a_token_vault, s.b_token_vault, s.token_a_mint, s.token_b_mint)
extract_vault_mints (PoolState.meteora_damm s) =
    some (s.token_a_vault, s.token_b_vault, s.token_a_mint, s.token_b_mint)
extract_vault_mints (PoolState.meteora_dbc s) =
    some (s.base_vault, s.quote_vault, s.base_mint, s.quote_mint)
extract_vault_mints (PoolState.flux_beam s) =
    some (s.token_a_vault, s.token_b_vault, s.token_a_mint, s.token_b_mint)
extract_vault_mints (PoolState.saros s) =
    some (s.token_a_vault, s.token_b_vault, s.token_a_mint, s.token_b_mint)
extract_vault_mints (PoolState.dooar s) =
    some (s.token_a_vault, s.token_b_vault, s.token_a_mint, s.token_b_mint)
extract_vault_mints (PoolState.pumpup s) =
    some (s.token_a_vault, s.token_b_vault, s.token_a_mint, s.token_b_mint)
extract_vault_mints _ = none

-- The reserves in the order of the trade; `none` where the input is neither mint.
pub ordered : (input_mint mint_a mint_b : Pubkey) → (a b : ℕ) → Option (ℕ × ℕ)
ordered input mint_a mint_b a b =
    if input == mint_a then some (a, b) else if input == mint_b then some (b, a) else none

pub extract_reserves_inline : PoolState → (input_mint : Pubkey) → Option (ℕ × ℕ)
extract_reserves_inline (PoolState.pump_fun_amm s) input =
    ordered input s.base_mint s.quote_mint s.base_reserve s.quote_reserve
extract_reserves_inline (PoolState.pumpup s) input =
    ordered input s.token_a_mint s.token_b_mint s.token_a_reserve s.token_b_reserve
extract_reserves_inline (PoolState.pumpup_bonding s) input =
    ordered input sol_native_mint s.mint (min (s.virtual_sol + s.real_sol) u128_max)
      s.pool_token_reserves
extract_reserves_inline _ input = none

pub get_reserves_from_mirror :
    Option AccountMirror → PoolState → (input_mint : Pubkey) → Option (ℕ × ℕ)
get_reserves_from_mirror mirror state input = do
  m ← mirror
  (vault_a, vault_b, mint_a, mint_b) ← extract_vault_mints state
  refuse_if (mint_a == 0 && mint_b == 0)
  bal_a ← get_vault_balance m vault_a
  bal_b ← get_vault_balance m vault_b
  some (if input == mint_a then (bal_a, bal_b) else (bal_b, bal_a))
