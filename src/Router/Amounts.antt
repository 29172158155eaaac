-- ===== src/Router/Amounts.antt =====
-- quote/router.rs and quote/types.rs: what a leg pays, what a hop is guaranteed, and the platform's fee.
pub mod Laws
use flow_trades_solana.Base.{
  ℕ, ◌+◌, ◌-◌, ◌*◌, ◌/◌, ◌%◌, ◌^◌, min, max, Option, none, some, ◌||◌, ◌==◌, if◌then◌else◌, ◌>>=◌,
  div_ceil,
}
use flow_trades_solana.Math.ConstantProduct.{compute_constant_product_out, compute_fee_amount}

-- The value that `set_platform_fee_bps` stores.
abbrev pub capped_platform_fee_bps : ℕ → ℕ
capped_platform_fee_bps bps = min bps 10_000

-- The amount of `compute_platform_fee`; its mint and texts are left out.
pub platform_fee : (platform_fee_bps amount_out : ℕ) → ℕ
platform_fee platform_fee_bps amount_out = amount_out * platform_fee_bps / 10_000 % 2 ^ 64

pub guaranteed : (quoted_out slippage_bps : ℕ) → ℕ
guaranteed quoted_out slippage_bps =
    let bps = min slippage_bps 9_999 in max (quoted_out * (10_000 - bps) / 10_000) 1 % 2 ^ 64

-- The least output that a quote's slippage allows.
pub compute_threshold : (out_amount slippage_bps : ℕ) → ℕ
compute_threshold out_amount slippage_bps =
    let bps = min slippage_bps 10_000 in out_amount * (10_000 - bps) / 10_000 % 2 ^ 64

-- (output, fee)
pub leg_out : (fee_bps reserve_in reserve_out amount : ℕ) → Option (ℕ × ℕ)
leg_out fee_bps reserve_in reserve_out amount = do
  out ← compute_constant_product_out reserve_in reserve_out amount fee_bps
  some (out, compute_fee_amount amount fee_bps)
