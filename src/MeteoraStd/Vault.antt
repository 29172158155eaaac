-- ===== src/MeteoraStd/Vault.antt =====
-- quote/meteora_std.rs: `VaultView` and `VaultShare`.
mod Tests
pub mod Laws
use flow_trades_solana.Base.{
  ℕ, ◌-◌, ◌*◌, ◌/◌, ◌%◌, ◌^◌, Option, none, min, ltb, ◌==◌, if◌then◌else◌, to_u64, u128_max,
}

abbrev pub locked_profit_degradation_denominator : ℕ
locked_profit_degradation_denominator = 1_000_000_000_000

pub record VaultView : Type 0 where
  pub total_amount : ℕ
  pub last_updated_locked_profit : ℕ
  pub last_report : ℕ
  pub locked_profit_degradation : ℕ

pub record VaultShare : Type 0 where
  pub vault : VaultView
  pub lp_supply : ℕ
  pub pool_lp : ℕ

-- Subtraction on the naturals is `saturating_sub`; a cast to `u64` keeps the low bits.
pub locked_profit : VaultView → ℕ → ℕ
locked_profit v now =
    let duration = now - v.last_report in
    let ratio = min (duration * v.locked_profit_degradation) u128_max in
    if ltb locked_profit_degradation_denominator ratio
    then 0
    else v.last_updated_locked_profit
      * (locked_profit_degradation_denominator - ratio)
      / locked_profit_degradation_denominator
      % 2 ^ 64

pub unlocked_amount : VaultView → ℕ → ℕ
unlocked_amount v now = v.total_amount - locked_profit v now

pub amount_by_share : VaultView → ℕ → ℕ → ℕ → ℕ
amount_by_share v share lp_supply now =
    if lp_supply == 0 then 0 else share * unlocked_amount v now / lp_supply % 2 ^ 64

pub unmint_amount : VaultView → ℕ → ℕ → ℕ → Option ℕ
unmint_amount v amount lp_supply now =
    let unlocked = unlocked_amount v now in
    if unlocked == 0 then none else to_u64 (amount * lp_supply / unlocked)

pub pool_amount : VaultShare → ℕ → ℕ
pool_amount s now = amount_by_share s.vault s.pool_lp s.lp_supply now
