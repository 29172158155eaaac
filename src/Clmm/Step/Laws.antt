-- ===== src/Clmm/Step/Laws.antt =====
-- quote/clmm.rs: theorems on the amounts between two prices and on one step.
use flow_trades_solana.Base.{
  ℕ, ◌-◌, ◌*◌, ◌/◌, ◌^◌, ◌≤◌, ◌<◌, ◌≡◌, Bool, true, false, some, u128_max, arith, inl, inr, ◌⊎◌,
  Option-cases, if◌then◌else◌, mul-le-mul_left, mul-le-mul_right,
}
use flow_trades_solana.Base.Arith.{div-mul-le, div-le_self_of_le, fee_on_top-le}
use flow_trades_solana.Clmm.Wide.{mul_div_floor, mul_div_ceil}
use flow_trades_solana.Clmm.Wide.Laws.{mul_div_floor-le, mul_div_ceil-le}
use flow_trades_solana.Clmm.Step.{fee_denominator_ppm, Moved, move, Step, charge, swap_step}
use flow_trades_solana.Clmm.Step.Deltas.{Paid}
use flow_trades_solana.Clmm.Step.Move.{move_down, move_up}

-- The input before its fee, as the step splits it off.
abbrev pub for_price : (remaining fee : ℕ) → Bool → ℕ
for_price remaining fee on =
    if on then remaining * (fee_denominator_ppm - fee) / fee_denominator_ppm else remaining

charge_bounds :
    (t remaining fee : ℕ) (on : Bool) (m : Moved) {s : Step}
    → fee < fee_denominator_ppm
    → m.amount_in ≤ for_price remaining fee on
    → charge t remaining fee on m ≡ some s
    → (s.next ≡ m.next) × (m.amount_in ≤ s.used) × (s.used ≤ remaining) × (s.got ≤ m.amount_out)
unfolding charge
charge_bounds t rem f true m hf le h =
    let u = m.amount_in in
    let k = fee_denominator_ppm - f in
    let fits : u * fee_denominator_ppm ≤ rem * k =
      omega (arith, div-mul-le (rem * k) fee_denominator_ppm) in
    let top = fee_on_top-le fee_denominator_ppm rem f u hf fits in
    let less : rem * k ≤ rem * fee_denominator_ppm = mul-le-mul_left rem (omega arith) in
    let le : u ≤ rem = omega (arith, fits, less) in
    elim (Option-cases (mul_div_ceil u f k)) [
      | inl e ↦ ground (arith, le)
      | inr (g, e) ↦ ground (arith, le, top, mul_div_ceil-le u f k e)
    ]
charge_bounds t rem f false m hf le h = ground arith

Paid-weaken :
    (down : Bool) (l lo hi : ℕ) {x o y q : ℕ}
    → x ≤ y
    → q ≤ o
    → Paid down l lo hi x o
    → Paid down l lo hi y q
Paid-weaken true l lo hi {x} {o} {y} {q} xy qo p =
    let i : l * (hi - lo) * 2 ^ 64 ≤ y * (lo * hi) =
      omega (arith, p.input, mul-le-mul_right (lo * hi) xy) in
    let j : q * 2 ^ 64 ≤ l * (hi - lo) = omega (arith, p.output) in record { input = i; output = j }
Paid-weaken false l lo hi {x} {o} {y} {q} xy qo p =
    let i : l * (hi - lo) ≤ y * 2 ^ 64 = omega (arith, p.input) in
    let j : q * (lo * hi) ≤ l * (hi - lo) * 2 ^ 64 =
      omega (arith, p.output, mul-le-mul_right (lo * hi) qo) in
    record { input = i; output = j }

-- A step from the price `p` towards `t`: it ends between the two, uses no more than the input that
-- remains, its whole input pays for the move of the price, and the output is paid for by that move.
pub record Steps (down : Bool) (p t l remaining : ℕ) (s : Step) : Type 0 where
  pub side : if down then (t ≤ s.next) × (s.next ≤ p) else (p ≤ s.next) × (s.next ≤ t)
  pub within : s.used ≤ remaining
  pub paid : if down then Paid true l s.next p s.used s.got else Paid false l p s.next s.used s.got

step_input :
    (remaining fee : ℕ) (on : Bool) {x : ℕ}
    → (if on
        then mul_div_floor remaining (fee_denominator_ppm - fee) fee_denominator_ppm
        else some remaining)
      ≡ some x
    → x ≤ for_price remaining fee on
step_input rem f true h = (mul_div_floor-le rem (fee_denominator_ppm - f) fee_denominator_ppm h).1
step_input rem f false h = ground arith

for_price-le : (remaining fee : ℕ) (on : Bool) → for_price remaining fee on ≤ remaining
for_price-le rem f true =
    let less : rem * (fee_denominator_ppm - f) ≤ rem * fee_denominator_ppm =
      mul-le-mul_left rem (omega arith) in
    div-le_self_of_le rem (rem * (fee_denominator_ppm - f)) fee_denominator_ppm (omega arith) less
for_price-le rem f false = omega arith

swap_step_down :
    (p t l remaining fee : ℕ) (on : Bool) {s : Step}
    → t ≤ p
    → p ≤ u128_max
    → l ≤ u128_max
    → remaining ≤ u128_max
    → fee < fee_denominator_ppm
    → swap_step p t l remaining fee true on ≡ some s
    → Steps true p t l remaining s
unfolding swap_step
swap_step_down p t l rem f on {s = s} le pb lb rb hf h =
    let given =
      if on then mul_div_floor rem (fee_denominator_ppm - f) fee_denominator_ppm else some rem in
    elim (Option-cases given) [
      | inl e ↦ ground arith
      | inr (x, e) ↦ elim (Option-cases (move p t l x true)) [
        | inl e1 ↦ ground arith
        | inr (m, e1) ↦
            let few = step_input rem f on e in
            let xb : x ≤ u128_max = omega (arith, few, for_price-le rem f on) in
            let r = move_down p t l x le pb lb xb e1 in
            let done : charge t rem f on m ≡ some s = ground arith in
            let stays : t ≤ m.next = ground arith in
            let within = r.within in
            let (same, more, fits, less) =
              charge_bounds t rem f on m hf (omega (arith, few, within)) done in
            let side : (t ≤ s.next) × (s.next ≤ p) = rw same (stays, r.side) in
            let paid : Paid true l s.next p s.used s.got =
              rw same (Paid-weaken true l m.next p more less r.paid) in
            record { side = side; within = fits; paid = paid }
      ]
    ]

swap_step_up :
    (p t l remaining fee : ℕ) (on : Bool) {s : Step}
    → p ≤ t
    → t ≤ u128_max
    → l ≤ u128_max
    → fee < fee_denominator_ppm
    → swap_step p t l remaining fee false on ≡ some s
    → Steps false p t l remaining s
unfolding swap_step
swap_step_up p t l rem f on {s = s} le tb lb hf h =
    let given =
      if on then mul_div_floor rem (fee_denominator_ppm - f) fee_denominator_ppm else some rem in
    elim (Option-cases given) [
      | inl e ↦ ground arith
      | inr (x, e) ↦ elim (Option-cases (move p t l x false)) [
        | inl e1 ↦ ground arith
        | inr (m, e1) ↦
            let few = step_input rem f on e in
            let r = move_up p t l x le tb lb e1 in
            let done : charge t rem f on m ≡ some s = ground arith in
            let stays : m.next ≤ t = ground arith in
            let within = r.within in
            let (same, more, fits, less) =
              charge_bounds t rem f on m hf (omega (arith, few, within)) done in
            let side : (p ≤ s.next) × (s.next ≤ t) = rw same (r.side, stays) in
            let paid : Paid false l p s.next s.used s.got =
              rw same (Paid-weaken false l p m.next more less r.paid) in
            record { side = side; within = fits; paid = paid }
      ]
    ]

-- For machine integers and a fee below the whole, a step that succeeds ends between the price it starts
-- from and its target, uses at most the input that remains, and is fair to the pool: its input pays for
-- the move of the price over the liquidity, and that move pays for the output, rounding included.
pub swap_step-Steps :
    (p t l remaining fee : ℕ) (a_to_b on : Bool) {s : Step}
    → (if a_to_b then t ≤ p else p ≤ t)
    → p ≤ u128_max
    → t ≤ u128_max
    → l ≤ u128_max
    → remaining ≤ u128_max
    → fee < fee_denominator_ppm
    → swap_step p t l remaining fee a_to_b on ≡ some s
    → Steps a_to_b p t l remaining s
swap_step-Steps p t l rem f true on le pb tb lb rb hf h =
    swap_step_down p t l rem f on le pb lb rb hf h
swap_step-Steps p t l rem f false on le pb tb lb rb hf h = swap_step_up p t l rem f on le tb lb hf h

-- A step that stops short of its target has used the whole input, so that nothing is left to walk with.
pub swap_step_short :
    (p t l remaining fee : ℕ) (a_to_b on : Bool) {s : Step}
    → swap_step p t l remaining fee a_to_b on ≡ some s
    → (s.next ≡ t) ⊎ (s.used ≡ remaining)
unfolding swap_step charge
swap_step_short p t l rem f d on h =
    let given =
      if on then mul_div_floor rem (fee_denominator_ppm - f) fee_denominator_ppm else some rem in
    elim (Option-cases given) [
      | inl e ↦ ground arith
      | inr (x, e) ↦ elim (Option-cases (move p t l x d)) [
        | inl e1 ↦ ground arith
        | inr (m, e1) ↦ ground arith
      ]
    ]
