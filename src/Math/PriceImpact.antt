-- ===== src/Math/PriceImpact.antt =====
-- quote/math.rs: the price impact of a swap. The texts show hundredths of a percent, which stand for them here.
pub mod Laws
use flow_trades_solana.Base.{
  ℕ, ◌-◌, ◌*◌, ◌/◌, ◌%◌, ◌^◌, Bool, Option, none, some, ◌||◌, leb, ◌==◌, if◌then◌else◌, checked_mul,
}
use flow_trades_solana.PoolType.{PoolType}

-- Of an ideal output, where it is known; the product on `u128` wraps around.
impact_bps : (ideal : Option ℕ) → (amount_out : ℕ) → ℕ
impact_bps none amount_out = 0
impact_bps (some ideal) amount_out =
    if ideal == 0 || leb ideal amount_out
    then 0
    else (ideal - amount_out) * 10_000 % 2 ^ 128 / ideal

pub estimate_price_impact : (reserve_in reserve_out amount_in amount_out : ℕ) → ℕ
estimate_price_impact reserve_in reserve_out amount_in amount_out =
    let scaled = checked_mul amount_in reserve_out in
    let ideal : Option ℕ = elim scaled [ none ↦ none | some n ↦ some (n / reserve_in) ] in
    let impact = impact_bps ideal amount_out in
    if reserve_in == 0 || amount_in == 0 || amount_out == 0 then 0 else impact

pub clmm_price_impact : (reserve_in reserve_out amount_in amount_out : ℕ) → ℕ
clmm_price_impact reserve_in reserve_out amount_in amount_out =
    let scaled = checked_mul amount_in reserve_out in
    let ideal : Option ℕ = elim scaled [ none ↦ none | some n ↦ some (n / reserve_in) ] in
    let impact = impact_bps ideal amount_out in
    if reserve_in == 0 || amount_in == 0 || amount_out == 0 then 0 else impact / 2

pub compute_price_impact_for_type : PoolType → (amount_in amount_out reserve_in reserve_out : ℕ) → ℕ
compute_price_impact_for_type PoolType.raydium_cl amount_in amount_out reserve_in reserve_out =
    clmm_price_impact reserve_in reserve_out amount_in amount_out
compute_price_impact_for_type PoolType.orca amount_in amount_out reserve_in reserve_out =
    clmm_price_impact reserve_in reserve_out amount_in amount_out
compute_price_impact_for_type PoolType.pancake_swap amount_in amount_out reserve_in reserve_out =
    clmm_price_impact reserve_in reserve_out amount_in amount_out
compute_price_impact_for_type PoolType.byreal amount_in amount_out reserve_in reserve_out =
    clmm_price_impact reserve_in reserve_out amount_in amount_out
compute_price_impact_for_type PoolType.defi_tuna_fusion amount_in amount_out reserve_in
      reserve_out =
    clmm_price_impact reserve_in reserve_out amount_in amount_out
compute_price_impact_for_type _ amount_in amount_out reserve_in reserve_out =
    estimate_price_impact reserve_in reserve_out amount_in amount_out
