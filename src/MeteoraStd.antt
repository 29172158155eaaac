-- ===== src/MeteoraStd.antt =====
-- quote/meteora_std.rs: Meteora Standard pools, which hold shares of two dynamic vaults. Reading the
-- accounts' bytes (`parse`, `update`, `parse_pool_fees`) is not modelled.
pub mod Vault
pub mod Laws
use flow_trades_solana.Base.{
  ℕ, ◌+◌, ◌-◌, ◌*◌, ◌/◌, ◌%◌, Bool, Option, some, ◌||◌, not, leb, ◌==◌, if◌then◌else◌, ◌>>=◌, ◌>>◌,
  refuse_if, checked_sub, checked_add_u64, to_u64, max,
}
use flow_trades_solana.MeteoraStd.Vault.{
  VaultView, VaultShare, amount_by_share, unmint_amount, pool_amount,
}

pub record MeteoraStdReserves : Type 0 where
  pub token_a_amount : ℕ
  pub token_b_amount : ℕ
  pub computed_at : ℕ
  pub trade_fee_numerator : ℕ
  pub trade_fee_denominator : ℕ
  pub constant_product : Bool
  pub protocol_fee_numerator : ℕ
  pub protocol_fee_denominator : ℕ
  pub vault_a : VaultShare
  pub vault_b : VaultShare

-- The denominator is positive at every call.
pub fee_of : ℕ → ℕ → ℕ → Option ℕ
fee_of amount numerator denominator =
    if numerator == 0 || amount == 0
    then some 0
    else do fee ← to_u64 (amount * numerator / denominator); some (max fee 1)

protocol_part : MeteoraStdReserves → ℕ → Option ℕ
protocol_part reserves trade_fee =
    if reserves.protocol_fee_denominator == 0
    then some 0
    else fee_of trade_fee reserves.protocol_fee_numerator reserves.protocol_fee_denominator

pub vault_in : MeteoraStdReserves → Bool → VaultShare
vault_in reserves a_to_b = if a_to_b then reserves.vault_a else reserves.vault_b

pub vault_out : MeteoraStdReserves → Bool → VaultShare
vault_out reserves a_to_b = if a_to_b then reserves.vault_b else reserves.vault_a

-- What reaches the curve: the pool's share after the deposit, less its share before and the LP fee.
pub actual_input : VaultShare → ℕ → ℕ → ℕ → Option ℕ
actual_input vin deposit lp_fee now = do
  minted ← unmint_amount vin.vault deposit vin.lp_supply now
  total ← checked_add_u64 vin.vault.total_amount deposit
  let grown = record vin.vault { total_amount = total }
  share ← checked_add_u64 vin.pool_lp minted
  supply ← checked_add_u64 vin.lp_supply minted
  gain ← checked_sub (amount_by_share grown share supply now) (pool_amount vin now)
  checked_sub gain lp_fee

-- The curve's output, rounded down, as the program computes it.
pub curve_output : ℕ → ℕ → ℕ → Option ℕ
curve_output res_in res_out actual_in = do
  let invariant = res_in * res_out
  let new_src = res_in + actual_in
  refuse_if (invariant / new_src == 0)
  let new_dst =
      if not (invariant % new_src == 0) then invariant / new_src + 1 else invariant / new_src
  left ← checked_sub res_out new_dst
  to_u64 left

-- (amount_out, trade_fee)
pub swap_exact_in : MeteoraStdReserves → Bool → ℕ → ℕ → Option (ℕ × ℕ)
swap_exact_in reserves a_to_b amount_in now = do
  refuse_if (not reserves.constant_product || amount_in == 0 || reserves.trade_fee_denominator == 0)
  let vin = vault_in reserves a_to_b
  let vout = vault_out reserves a_to_b
  refuse_if (vin.lp_supply == 0 || vout.lp_supply == 0)
  let res_in = pool_amount vin now
  let res_out = pool_amount vout now
  refuse_if (res_in == 0 || res_out == 0)
  trade_fee ← fee_of amount_in reserves.trade_fee_numerator reserves.trade_fee_denominator
  protocol_fee ← protocol_part reserves trade_fee
  lp_fee ← checked_sub trade_fee protocol_fee
  deposit ← checked_sub amount_in protocol_fee
  actual_in ← actual_input vin deposit lp_fee now
  dest ← curve_output res_in res_out actual_in
  refuse_if (dest == 0)
  burned ← unmint_amount vout.vault dest vout.lp_supply now
  let out = amount_by_share vout.vault burned vout.lp_supply now
  refuse_if (out == 0 || leb res_out out)
  some (out, trade_fee)
