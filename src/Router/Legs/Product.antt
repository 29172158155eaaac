-- ===== src/Router/Legs/Product.antt =====
-- quote/router.rs: what each kind of constant-product leg keeps.
use flow_trades_solana.Base.{
  ℕ, ◌+◌, ◌-◌, ◌*◌, ◌/◌, ◌≤◌, ◌<◌, ◌≡◌, ap, answered, some, not, ◌==◌, arith, mul-le-mul_right,
  mul-le-mul_left, checked_sub, refuse_if, div_ceil, ◌||◌,
}
use flow_trades_solana.Base.Bytes.{Pubkey}
use flow_trades_solana.Base.Arith.{div-mul-le, div-le_self_of_le, product_kept}
use flow_trades_solana.PoolState.Vaults.{RaydiumV4, RaydiumCpmm}
use flow_trades_solana.Router.Legs.{
  curve_out, fee_leg, cpmm_leg, v4_leg, swap_base_in_out, can_swap,
}

-- The output is at most the output reserve, and the product of the reserves does not fall.
abbrev pub KeepsProduct : (amount reserve_in reserve_out out : ℕ) → Type 0
KeepsProduct amount reserve_in reserve_out out =
    (out ≤ reserve_out) × (reserve_in * reserve_out ≤ (reserve_in + amount) * (reserve_out - out))

curve_out_inversion :
    (reserve_in reserve_out in_less : ℕ) {out : ℕ}
    → curve_out reserve_in reserve_out in_less ≡ some out
    → (0 < reserve_in + in_less) × (out ≡ reserve_out * in_less / (reserve_in + in_less))
unfolding curve_out
curve_out_inversion rin rout less h = ground arith

curve_out_keeps :
    (reserve_in reserve_out in_less amount : ℕ) {gross out : ℕ}
    → curve_out reserve_in reserve_out in_less ≡ some gross
    → in_less ≤ amount
    → out ≤ gross
    → KeepsProduct amount reserve_in reserve_out out
curve_out_keeps rin rout less amount {gross} {out} h within net =
    let (pos, e) = curve_out_inversion rin rout less h in
    let floor : gross * (rin + less) ≤ rout * less = rw e (div-mul-le (rout * less) (rin + less)) in
    let part : rout * less ≤ rout * (rin + less) = mul-le-mul_left rout (omega arith) in
    let below : gross ≤ rout = rw e (div-le_self_of_le rout (rout * less) (rin + less) pos part) in
    let lower : out * (rin + less) ≤ gross * (rin + less) = mul-le-mul_right (rin + less) net in
    let back : (rout - out) + out ≡ rout = omega arith in
    let paid : out * rin ≤ less * (rout - out) =
      omega (arith, floor, lower, ap (λ (t : ℕ). less * t) back) in
    (
      omega arith,
      product_kept out rout rin amount (omega arith)
          (omega (arith, paid, mul-le-mul_right (rout - out) within)),
    )

-- The same of an answer that also tells the reserves, which are those of the curve.
abbrev pub LegKeeps : (amount reserve_in reserve_out : ℕ) → (out rin rout : ℕ) → Type 0
LegKeeps amount reserve_in reserve_out out rin rout =
    (rin ≡ reserve_in) × (rout ≡ reserve_out) × KeepsProduct amount reserve_in reserve_out out

-- The reserves that a quote tells are those of the curve, within what the pool holds.
abbrev pub Priced : (amount held_in held_out : ℕ) → (out rin rout : ℕ) → Type 0
Priced amount held_in held_out out rin rout =
    (rin ≤ held_in) × (rout ≤ held_out) × KeepsProduct amount rin rout out

priced :
    (amount held_in held_out : ℕ) {a b o out rin rout : ℕ}
    → out ≡ o
    → rin ≡ a
    → rout ≡ b
    → a ≤ held_in
    → b ≤ held_out
    → KeepsProduct amount a b o
    → Priced amount held_in held_out out rin rout
priced amount held_in held_out same ei eo less_in less_out kept =
    rw (same, ei, eo) (less_in, less_out, kept)

pub priced_leg :
    (amount reserve_in reserve_out held_in held_out : ℕ) {out rin rout : ℕ}
    → reserve_in ≤ held_in
    → reserve_out ≤ held_out
    → LegKeeps amount reserve_in reserve_out out rin rout
    → Priced amount held_in held_out out rin rout
priced_leg amount reserve_in reserve_out held_in held_out less_in less_out (ei, eo, kept) =
    rw (ei, eo) (less_in, less_out, kept)

pub fee_leg_keeps :
    (fee amount reserve_in reserve_out : ℕ) {out f rin rout : ℕ}
    → fee_leg fee amount reserve_in reserve_out ≡ some (out, f, rin, rout)
    → LegKeeps amount reserve_in reserve_out out rin rout
unfolding fee_leg
fee_leg_keeps fee amount reserve_in reserve_out {out} {f} {rin} {rout} h =
    let (less, e, h1) = answered (checked_sub amount fee) h in
    let (gross, c, h2) = answered (curve_out reserve_in reserve_out less) h1 in
    let within : less ≤ amount = ground arith in
    let (same, ei, eo) : (out ≡ gross) × (rin ≡ reserve_in) × (rout ≡ reserve_out) =
      ground (arith, h2) in
    (ei, eo, curve_out_keeps reserve_in reserve_out less amount c within (omega (arith, same)))

swap_base_in_out_keeps :
    (reserve_in reserve_out amount num den : ℕ) {out fee : ℕ}
    → swap_base_in_out reserve_in reserve_out amount num den ≡ some (out, fee)
    → KeepsProduct amount reserve_in reserve_out out
unfolding swap_base_in_out
swap_base_in_out_keeps reserve_in reserve_out amount num den {out} {fee} h =
    let (_, _, h0) = answered (refuse_if (den == 0 || amount == 0)) h in
    let (less, e, h1) = answered (checked_sub amount (div_ceil (amount * num) den)) h0 in
    let (gross, c, h2) = answered (curve_out reserve_in reserve_out less) h1 in
    let within : less ≤ amount = ground arith in
    let same : out ≡ gross = ground (arith, h2) in
    curve_out_keeps reserve_in reserve_out less amount c within (omega (arith, same))

pub cpmm_leg_keeps :
    (s : RaydiumCpmm) (input : Pubkey) (amount reserve_in reserve_out : ℕ) {out f rin rout : ℕ}
    → cpmm_leg s input amount reserve_in reserve_out ≡ some (out, f, rin, rout)
    → LegKeeps amount reserve_in reserve_out out rin rout
unfolding cpmm_leg
cpmm_leg_keeps s input amount reserve_in reserve_out {out} {f} {rin} {rout} h =
    let (less, e, h1) = answered (checked_sub amount _) h in
    let (gross, c, h2) = answered (curve_out reserve_in reserve_out less) h1 in
    let (net, n, h3) = answered (checked_sub gross _) h2 in
    let within : less ≤ amount = ground arith in
    let charged : net ≤ gross = ground arith in
    let (same, ei, eo) : (out ≡ net) × (rin ≡ reserve_in) × (rout ≡ reserve_out) =
      ground (arith, h3) in
    (
      ei,
      eo,
      curve_out_keeps reserve_in reserve_out less amount c within (omega (arith, same, charged)),
    )

pub v4_leg_keeps :
    (s : RaydiumV4) (now : ℕ) (input : Pubkey) (amount reserve_in reserve_out : ℕ)
    {out f rin rout : ℕ}
    → v4_leg s now input amount reserve_in reserve_out ≡ some (out, f, rin, rout)
    → Priced amount reserve_in reserve_out out rin rout
unfolding v4_leg
v4_leg_keeps s now input amount reserve_in reserve_out {out} {f} {rin} {rout} h =
    let (_, _, h0) = answered (refuse_if (not (can_swap s.status s.pool_open_time now))) h in
    let (curve_in, ci, h1) = answered (checked_sub reserve_in _) h0 in
    let (left, co, h2) = answered (checked_sub reserve_out _) h1 in
    let ((o, fee), e, h3) =
      answered (swap_base_in_out curve_in left amount s.swap_fee_numerator s.swap_fee_denominator)
        h2 in
    let kept =
      swap_base_in_out_keeps curve_in left amount s.swap_fee_numerator s.swap_fee_denominator e in
    let less_in : curve_in ≤ reserve_in = ground arith in
    let less_out : left ≤ reserve_out = ground arith in
    let (same, ei, eo) : (out ≡ o) × (rin ≡ curve_in) × (rout ≡ left) = ground (arith, h3) in
    priced amount reserve_in reserve_out same ei eo less_in less_out kept
