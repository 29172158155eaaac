-- ===== src/Router/Legs.antt =====
-- quote/router.rs: one constant-product leg with the fee that the pool charges.
-- The clocks are arguments. The reserves are of 64 bits, their products of 128.
mod Product
mod Laws
mod Tests
use flow_trades_solana.Base.{
  ℕ, ◌+◌, ◌-◌, ◌*◌, ◌%◌, ◌^◌, Bool, true, false, not, ◌&&◌, ◌||◌, Option, none, some, ltb, leb,
  ◌==◌, if◌then◌else◌, ◌>>=◌, ◌>>◌, refuse_if, min, u64_max, u128_max, to_u64, checked_add,
  checked_mul, checked_sub, checked_div, div_ceil,
}
use flow_trades_solana.Base.Bytes.{Pubkey}
use flow_trades_solana.PoolType.{PoolType}
use flow_trades_solana.PoolState
use flow_trades_solana.PoolState.{PoolState}
use flow_trades_solana.PoolState.Fees.{SplSwapFees, total_fee}
use flow_trades_solana.PoolState.Vaults.{RaydiumV4, RaydiumCpmm}
use flow_trades_solana.AccountMirror.{AccountMirror, get_vault_balance}
use flow_trades_solana.ObservedFees.Cache.{Observed, get_fresh_ppm, get_fresh}
use flow_trades_solana.PumpAmm.{FeeTables, pamm_total_fee_bps}
use flow_trades_solana.Router.Amounts.{leg_out}
use flow_trades_solana.Router.Venue.{fee_for_pool_type}

abbrev pub observed_fee_max_age : ℕ
observed_fee_max_age = 600

-- The output, the fee, and the reserves of the two sides.
abbrev pub LegResult : Type 0
LegResult = ℕ × ℕ × ℕ × ℕ

-- `reserve_out · in_less / (reserve_in + in_less)`; a division by zero panics, which is `none`.
pub curve_out : (reserve_in reserve_out in_less : ℕ) → Option ℕ
curve_out reserve_in reserve_out in_less = do
  numerator ← checked_mul reserve_out in_less
  denominator ← checked_add reserve_in in_less
  checked_div numerator denominator

abbrev pub ceil_ppm : (a ppm : ℕ) → ℕ
ceil_ppm a ppm = div_ceil (a * ppm) 1_000_000

-- What the pool keeps in its vaults beside the curve.
pub cpmm_reserves : RaydiumCpmm → (input_mint : Pubkey) → (reserve_in reserve_out : ℕ) → ℕ × ℕ
cpmm_reserves s input reserve_in reserve_out =
    let fees_0 = s.protocol_fees_0 + s.fund_fees_0 in
    let fees_1 = s.protocol_fees_1 + s.fund_fees_1 in
    if input == s.token_0_mint
    then (reserve_in - fees_0, reserve_out - fees_1)
    else (reserve_in - fees_1, reserve_out - fees_0)

pub creator_on_input : RaydiumCpmm → (is_token0_in : Bool) → Bool
creator_on_input s is_token0_in =
    if s.creator_fee_on == 0
    then true
    else if s.creator_fee_on == 1
    then is_token0_in
    else not is_token0_in

-- The trade fee and the creator fee, on the side that it is taken from.
pub cpmm_leg :
    RaydiumCpmm → (input_mint : Pubkey) → (amount reserve_in reserve_out : ℕ) → Option LegResult
cpmm_leg s input amount reserve_in reserve_out = do
  let creator_ppm = if s.enable_creator_fee then s.creator_fee_ppm else 0
  let on_input = ltb 0 creator_ppm && creator_on_input s (input == s.token_0_mint)
  let trade_fee = ceil_ppm amount (s.trade_fee_bps * 100)
  let creator_in = if on_input then ceil_ppm amount creator_ppm else 0
  in_less ← checked_sub amount (trade_fee + creator_in)
  gross ← curve_out reserve_in reserve_out in_less
  let creator_out = if ltb 0 creator_ppm && not on_input then ceil_ppm gross creator_ppm else 0
  net ← checked_sub gross creator_out
  out ← to_u64 net
  refuse_if (out == 0)
  some (out, (trade_fee + creator_in) % 2 ^ 64, reserve_in, reserve_out)

-- execution/amms/raydium_v4.rs.
pub can_swap : (status pool_open_time now_unix : ℕ) → Bool
can_swap status pool_open_time now =
    if status == 1 || status == 6
    then true
    else if status == 7
    then leb pool_open_time now
    else false

pub swap_base_in_out :
    (reserve_in reserve_out amount_in fee_numerator fee_denominator : ℕ) → Option (ℕ × ℕ)
swap_base_in_out reserve_in reserve_out amount_in fee_numerator fee_denominator = do
  refuse_if (fee_denominator == 0 || amount_in == 0)
  let fee = div_ceil (amount_in * fee_numerator) fee_denominator
  in_less_fee ← checked_sub amount_in fee
  out ← curve_out reserve_in reserve_out in_less_fee
  refuse_if (out == 0 || leb reserve_out out)
  amount_out ← to_u64 out
  some (amount_out, fee % 2 ^ 64)

pub v4_leg :
    RaydiumV4
    → (now : ℕ) → (input_mint : Pubkey) → (amount reserve_in reserve_out : ℕ) → Option LegResult
v4_leg s now input amount reserve_in reserve_out = do
  refuse_if (not (can_swap s.status s.pool_open_time now))
  let coin_in = input == s.coin_mint
  curve_in ← checked_sub reserve_in (if coin_in then s.need_take_pnl_coin else s.need_take_pnl_pc)
  left ← checked_sub reserve_out (if coin_in then s.need_take_pnl_pc else s.need_take_pnl_coin)
  (out, fee) ← swap_base_in_out curve_in left amount s.swap_fee_numerator s.swap_fee_denominator
  some (out, fee, curve_in, left)

-- The curve with a fee that is known, off the input.
pub fee_leg : (fee amount reserve_in reserve_out : ℕ) → Option LegResult
fee_leg fee amount reserve_in reserve_out = do
  in_less ← checked_sub amount fee
  gross ← curve_out reserve_in reserve_out in_less
  out ← to_u64 gross
  refuse_if (out == 0)
  some (out, fee % 2 ^ 64, reserve_in, reserve_out)

pub fork_leg : SplSwapFees → (fee amount reserve_in reserve_out : ℕ) → Option LegResult
fork_leg fees fee amount reserve_in reserve_out =
    if fees.curve_type == 0 then fee_leg fee amount reserve_in reserve_out else none

-- The fee of the pool's own schedule, where it has one.
abbrev pub forked :
    SplSwapFees → Option LegResult → (amount reserve_in reserve_out : ℕ) → Option LegResult
forked fees otherwise amount reserve_in reserve_out = elim (total_fee fees amount) [
  | none ↦ otherwise
  | some fee ↦ fork_leg fees fee amount reserve_in reserve_out
]

-- The configured fee of a CPMM pool, or a measured one, or the venue's.
abbrev pub configured : PoolState → Option ℕ
configured (PoolState.raydium_cpmm s) = if ltb 0 s.trade_fee_bps then some s.trade_fee_bps else none
configured _ = none

module _ (tables : FeeTables) where
  abbrev table_fee_bps : PoolState → PoolType → ℕ
  table_fee_bps (PoolState.pump_fun_amm s) t = pamm_total_fee_bps tables (PoolState.pump_fun_amm s)
  table_fee_bps _ t = fee_for_pool_type t

  pub venue_fee_bps : Observed → (clock : ℕ) → PoolState → PoolType → Pubkey → ℕ
  venue_fee_bps observed clock state t pool = elim (configured state) [
    | some bps ↦ bps
    | none ↦ elim (get_fresh observed pool observed_fee_max_age clock) [
      | some bps ↦ bps
      | none ↦ table_fee_bps state t
    ]
  ]

  pub default_leg :
      Observed
      → (clock : ℕ) → PoolState
      → PoolType
      → Pubkey
      → (amount reserve_in reserve_out : ℕ) → Option LegResult
  default_leg observed clock state t pool amount reserve_in reserve_out = do
    (out, fee) ← leg_out (venue_fee_bps observed clock state t pool) reserve_in reserve_out amount
    refuse_if (out == 0)
    some (out, fee, reserve_in, reserve_out)

  -- A measured fee, if there is a fresh one, before the venue's.
  pub measured_leg :
      Observed
      → (clock : ℕ) → PoolState
      → PoolType
      → Pubkey
      → (amount reserve_in reserve_out : ℕ) → Option LegResult
  measured_leg observed clock state t pool amount reserve_in reserve_out =
      elim (get_fresh_ppm observed pool observed_fee_max_age clock) [
        | none ↦ default_leg observed clock state t pool amount reserve_in reserve_out
        | some ppm ↦ fee_leg (ceil_ppm amount ppm) amount reserve_in reserve_out
      ]

  pub price_cp :
      Observed
      → (clock now : ℕ) → PoolState
      → PoolType
      → (pool input_mint : Pubkey) → (amount reserve_in reserve_out : ℕ) → Option LegResult
  price_cp observed clock now (PoolState.raydium_cpmm s) t pool input amount reserve_in
        reserve_out =
      let (rin, rout) = cpmm_reserves s input reserve_in reserve_out in
      let measured =
        measured_leg observed clock (PoolState.raydium_cpmm s) t pool amount rin rout in
      if ltb 0 s.trade_fee_bps then cpmm_leg s input amount rin rout else measured
  price_cp observed clock now (PoolState.raydium_v4 s) t pool input amount reserve_in reserve_out =
      v4_leg s now input amount reserve_in reserve_out
  price_cp observed clock now (PoolState.dooar s) t pool input amount reserve_in reserve_out =
      forked s.fees
        (measured_leg observed clock (PoolState.dooar s) t pool amount reserve_in reserve_out)
        amount reserve_in reserve_out
  price_cp observed clock now (PoolState.flux_beam s) t pool input amount reserve_in reserve_out =
      forked s.fees
        (measured_leg observed clock (PoolState.flux_beam s) t pool amount reserve_in reserve_out)
        amount reserve_in reserve_out
  price_cp observed clock now state t pool input amount reserve_in reserve_out =
      measured_leg observed clock state t pool amount reserve_in reserve_out
