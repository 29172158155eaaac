-- ===== src/Router/Legs/Laws.antt =====
-- quote/router.rs: theorems on one constant-product leg.
use flow_trades_solana.Base.{
  ℕ, ◌≤◌, ◌≡◌, answered, Option, some, ◌==◌, ltb, arith, if-both, Option-both,
}
use flow_trades_solana.Base.Bytes.{Pubkey}
use flow_trades_solana.Math.ConstantProduct.Laws.{compute_constant_product_out_keeps_product}
use flow_trades_solana.PoolType.{PoolType}
use flow_trades_solana.PoolState.{PoolState}
use flow_trades_solana.PoolState.Fees.{SplSwapFees, total_fee}
use flow_trades_solana.PoolState.Vaults.{RaydiumCpmm}
use flow_trades_solana.ObservedFees.Cache.{Observed, get_fresh_ppm}
use flow_trades_solana.PumpAmm.{FeeTables}
use flow_trades_solana.Router.Amounts.{leg_out}
use flow_trades_solana.Router.Amounts.Laws.{leg_out_inversion}
use flow_trades_solana.Router.Legs.{
  LegResult, fork_leg, cpmm_reserves, venue_fee_bps, default_leg, measured_leg, forked, price_cp,
  ceil_ppm, observed_fee_max_age,
}
use flow_trades_solana.Router.Legs.Product.{
  LegKeeps, Priced, priced_leg, fee_leg_keeps, cpmm_leg_keeps, v4_leg_keeps,
}

default_leg_keeps :
    (tables : FeeTables) (observed : Observed) (clock : ℕ) (state : PoolState) (t : PoolType)
    (pool : Pubkey) (amount reserve_in reserve_out : ℕ) {out f rin rout : ℕ}
    → default_leg tables observed clock state t pool amount reserve_in reserve_out
      ≡ some (out, f, rin, rout)
    → LegKeeps amount reserve_in reserve_out out rin rout
unfolding default_leg
default_leg_keeps tables observed clock state t pool amount reserve_in reserve_out {out} {f} {rin}
      {rout} h =
    let bps = venue_fee_bps tables observed clock state t pool in
    let ((o, fee), e, h1) = answered (leg_out bps reserve_in reserve_out amount) h in
    let (lt, kept) =
      compute_constant_product_out_keeps_product reserve_in reserve_out amount bps
        (leg_out_inversion bps reserve_in reserve_out amount e) in
    let (same, ei, eo) : (out ≡ o) × (rin ≡ reserve_in) × (rout ≡ reserve_out) =
      ground (arith, h1) in
    (ei, eo, rw same (omega arith, kept))

measured_leg_keeps :
    (tables : FeeTables) (observed : Observed) (clock : ℕ) (state : PoolState) (t : PoolType)
    (pool : Pubkey) (amount reserve_in reserve_out : ℕ) {out f rin rout : ℕ}
    → measured_leg tables observed clock state t pool amount reserve_in reserve_out
      ≡ some (out, f, rin, rout)
    → LegKeeps amount reserve_in reserve_out out rin rout
unfolding measured_leg
measured_leg_keeps tables observed clock state t pool amount reserve_in reserve_out {out} {f} {rin}
      {rout} =
    Option-both
      (λ o. o ≡ some (out, f, rin, rout) → LegKeeps amount reserve_in reserve_out out rin rout)
      (get_fresh_ppm observed pool observed_fee_max_age clock)
      (default_leg_keeps tables observed clock state t pool amount reserve_in reserve_out)
      (λ ppm _. fee_leg_keeps (ceil_ppm amount ppm) amount reserve_in reserve_out)

forked_keeps :
    (fees : SplSwapFees) (otherwise : Option LegResult) (amount reserve_in reserve_out : ℕ)
    {out f rin rout : ℕ}
    → (otherwise ≡ some (out, f, rin, rout) → LegKeeps amount reserve_in reserve_out out rin rout)
    → forked fees otherwise amount reserve_in reserve_out ≡ some (out, f, rin, rout)
    → LegKeeps amount reserve_in reserve_out out rin rout
unfolding fork_leg
forked_keeps fees otherwise amount reserve_in reserve_out {out} {f} {rin} {rout} sound =
    let Keeps : Option LegResult → Type 0 =
      λ o. o ≡ some (out, f, rin, rout) → LegKeeps amount reserve_in reserve_out out rin rout in
    Option-both Keeps (total_fee fees amount) sound (λ fee _.
      if-both Keeps (fees.curve_type == 0) (λ _. fee_leg_keeps fee amount reserve_in reserve_out)
        (λ _ k. ground arith))

cpmm_reserves-le :
    (s : RaydiumCpmm) (input a b : ℕ)
    → ((cpmm_reserves s input a b).0 ≤ a) × ((cpmm_reserves s input a b).1 ≤ b)
unfolding cpmm_reserves
cpmm_reserves-le s input a b = ground arith

-- Where a leg is quoted on the reserves of its vaults, whatever the pool's state and the fees that were measured,
-- the reserves it tells are within those, the output is at most the reserve told, and the product of the reserves
-- told, after the whole input is added and the output taken, is at least the product before.
pub price_cp_keeps_product :
    (tables : FeeTables) (observed : Observed) (clock now : ℕ) (state : PoolState) (t : PoolType)
    (pool input : Pubkey) (amount reserve_in reserve_out : ℕ) {out fee rin rout : ℕ}
    → price_cp tables observed clock now state t pool input amount reserve_in reserve_out
      ≡ some (out, fee, rin, rout)
    → Priced amount reserve_in reserve_out out rin rout
unfolding price_cp
price_cp_keeps_product tables observed clock now (PoolState.raydium_v4 s) t pool input amount a b
      h =
    v4_leg_keeps s now input amount a b h
price_cp_keeps_product tables observed clock now (PoolState.raydium_cpmm s) t pool input amount a b
      {out} {fee} {rin} {rout} h =
    let (curve_in, left) = cpmm_reserves s input a b in
    let (less_in, less_out) = cpmm_reserves-le s input a b in
    if-both (λ o. o ≡ some (out, fee, rin, rout) → Priced amount a b out rin rout)
      (ltb 0 s.trade_fee_bps)
      (λ _ k.
        priced_leg amount curve_in left a b less_in less_out
          (cpmm_leg_keeps s input amount curve_in left k))
      (λ _ k. priced_leg amount curve_in left a b less_in less_out (
        measured_leg_keeps tables observed clock (PoolState.raydium_cpmm s) t pool amount curve_in
          left k))
      h
price_cp_keeps_product tables observed clock now (PoolState.dooar s) t pool input amount a b h =
    priced_leg amount a b a b (omega arith) (omega arith) (
      forked_keeps s.fees _ amount a b
        (measured_leg_keeps tables observed clock (PoolState.dooar s) t pool amount a b) h)
price_cp_keeps_product tables observed clock now (PoolState.flux_beam s) t pool input amount a b h =
    priced_leg amount a b a b (omega arith) (omega arith) (
      forked_keeps s.fees _ amount a b
        (measured_leg_keeps tables observed clock (PoolState.flux_beam s) t pool amount a b) h)
price_cp_keeps_product tables observed clock now state t pool input amount a b h =
    priced_leg amount a b a b (omega arith) (omega arith)
      (measured_leg_keeps tables observed clock state t pool amount a b h)
