-- ===== src/Clmm/Step/Move.antt =====
-- quote/clmm.rs: theorems on the move inside a step, before the fee.
use flow_trades_solana.Base.{
  ℕ, ◌-◌, ◌*◌, ◌^◌, ◌≤◌, ◌≡◌, subst, leb, leb→le, Bool, true, false, some, u128_max, arith, inl,
  inr, Option-cases, Bool-cases, if◌then◌else◌,
}
use flow_trades_solana.Base.Arith.{div_ceil-le}
use flow_trades_solana.Clmm.Step.{next_sqrt_price_from_input, deltas_to, Moved, move_short, move}
use flow_trades_solana.Clmm.Step.Deltas.{
  Paid, deltas_down, deltas_up, Paid-down, Paid-up, next_down, next_up,
}

-- Where a move from `p` ends: on the side of the swap, with the input within `x`, and paid for.
pub record Reaches (down : Bool) (l p x : ℕ) (m : Moved) : Type 0 where
  pub side : if down then m.next ≤ p else p ≤ m.next
  pub within : m.amount_in ≤ x
  pub paid :
      if down
      then Paid true l m.next p m.amount_in m.amount_out
      else Paid false l p m.next m.amount_in m.amount_out

short_down :
    (p l x : ℕ) {m : Moved}
    → p ≤ u128_max
    → l ≤ u128_max
    → x ≤ u128_max
    → move_short p l x true ≡ some m
    → Reaches true l p x m
unfolding move_short
short_down p l x {m = m} pb lb xb h = elim (Option-cases (next_sqrt_price_from_input p l x true)) [
  | inl e ↦ ground arith
  | inr (n, e) ↦ elim (Option-cases (deltas_to p n l true)) [
    | inl e1 ↦ ground arith
    | inr ((i, o), e1) ↦
        let (le, covered) = next_down p l x pb xb e in
        let (pos, ei, eo) = deltas_down n p l le pb lb e1 in
        let fits : i ≤ x = rw ei (div_ceil-le (l * (p - n) * 2 ^ 64) (n * p) x pos covered) in
        let same : record { next = n; amount_in = i; amount_out = o } ≡ m = ground arith in
        subst (Reaches true l p x) same
          (record { side = le; within = fits; paid = Paid-down n p l le pb lb e1 })
  ]
]

short_up :
    (p l x : ℕ) {m : Moved}
    → p ≤ u128_max
    → l ≤ u128_max
    → move_short p l x false ≡ some m
    → Reaches false l p x m
unfolding move_short
short_up p l x {m = m} pb lb h = elim (Option-cases (next_sqrt_price_from_input p l x false)) [
  | inl e ↦ ground arith
  | inr (n, e) ↦ elim (Option-cases (deltas_to p n l false)) [
    | inl e1 ↦ ground arith
    | inr ((i, o), e1) ↦
        let (le, covered, top) = next_up p l x e in
        let nb : n ≤ u128_max = omega (arith, top) in
        let (pos, ei, eo) = deltas_up p n l le nb lb e1 in
        let fits : i ≤ x = rw ei (div_ceil-le (l * (n - p)) (2 ^ 64) x (omega arith) covered) in
        let same : record { next = n; amount_in = i; amount_out = o } ≡ m = ground arith in
        subst (Reaches false l p x) same
          (record { side = le; within = fits; paid = Paid-up p n l le nb lb e1 })
  ]
]

pub full : (t i o : ℕ) → Moved
full t i o = record { next = t; amount_in = i; amount_out = o }

pub move_down :
    (p t l x : ℕ) {m : Moved}
    → t ≤ p
    → p ≤ u128_max
    → l ≤ u128_max
    → x ≤ u128_max
    → move p t l x true ≡ some m
    → Reaches true l p x m
unfolding move full
move_down p t l x {m = m} le pb lb xb h = elim (Option-cases (deltas_to p t l true)) [
  | inl e ↦ short_down p l x pb lb xb (ground arith)
  | inr ((i, o), e) ↦ elim (Bool-cases (leb i x)) [
    | inr e1 ↦ short_down p l x pb lb xb (ground arith)
    | inl e1 ↦
        let same : full t i o ≡ m = ground arith in
        subst (Reaches true l p x) same
          (record { side = le; within = leb→le i x e1; paid = Paid-down t p l le pb lb e })
  ]
]

pub move_up :
    (p t l x : ℕ) {m : Moved}
    → p ≤ t
    → t ≤ u128_max
    → l ≤ u128_max
    → move p t l x false ≡ some m
    → Reaches false l p x m
unfolding move full
move_up p t l x {m = m} le tb lb h = elim (Option-cases (deltas_to p t l false)) [
  | inl e ↦ short_up p l x (omega arith) lb (ground arith)
  | inr ((i, o), e) ↦ elim (Bool-cases (leb i x)) [
    | inr e1 ↦ short_up p l x (omega arith) lb (ground arith)
    | inl e1 ↦
        let same : full t i o ≡ m = ground arith in
        subst (Reaches false l p x) same
          (record { side = le; within = leb→le i x e1; paid = Paid-up p t l le tb lb e })
  ]
]
