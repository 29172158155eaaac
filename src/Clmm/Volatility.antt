-- ===== src/Clmm/Volatility.antt =====
-- quote/clmm.rs: what the dynamic and the adaptive fee share. Products on `u128` that the source does not
-- check wrap around.
use flow_trades_solana.Base.{ℕ, ◌*◌, ◌/◌, ◌%◌, ◌^◌, ltb, if◌then◌else◌, div_ceil}

abbrev pub volatility_accumulator_scale : ℕ
volatility_accumulator_scale = 10_000

abbrev pub max_dynamic_fee_rate : ℕ
max_dynamic_fee_rate = 100_000

-- `control · crossed²` on 128 bits, per 10^13 and rounded up.
unfoldable pub volatility_fee : (control crossed : ℕ) → ℕ
volatility_fee control crossed =
    div_ceil (control * crossed % 2 ^ 128 * crossed % 2 ^ 128) (100_000 * 10_000 * 10_000)

-- The volatility after idling: decayed, or forgotten.
unfoldable pub decayed : (elapsed decay_period accumulator reduction_factor : ℕ) → ℕ
decayed elapsed decay_period accumulator reduction_factor =
    if ltb elapsed decay_period then accumulator * reduction_factor / 10_000 % 2 ^ 32 else 0
