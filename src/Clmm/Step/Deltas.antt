-- ===== src/Clmm/Step/Deltas.antt =====
-- quote/clmm.rs: theorems on the amounts between two prices, and on the price an input moves to.
use flow_trades_solana.Base.{
  ℕ, ◌+◌, ◌-◌, ◌*◌, ◌/◌, ◌^◌, ◌≤◌, ◌<◌, ◌≡◌, sym, ap, subst, ◌∙◌, min, max, Bool, true, false, some,
  u128_max, arith, inl, inr, ◌⊎◌, Option-cases, Bool-cases, div_ceil, if◌then◌else◌, ◌==◌,
  mul-le-mul_right,
}
use flow_trades_solana.Base.Arith.{div-mul-le, le-div_ceil-mul, div_ceil-le}
use flow_trades_solana.Clmm.Wide.{wide_mul, mul_div_256, mul_div_floor}
use flow_trades_solana.Clmm.Wide.Laws.{
  wide_mul_lem, quotient, mul_div_256_inversion, mul_div_floor_lem, mul_div_ceil_lem,
  mul_div_floor-le,
}
use flow_trades_solana.Clmm.Price.{q64}
use flow_trades_solana.Clmm.Step.{
  amount0_delta, amount1_delta, next_sqrt_price_from_input, deltas_to,
}

amount0_lem :
    (lo hi l : ℕ) (up : Bool) {q : ℕ}
    → lo ≤ hi
    → hi ≤ u128_max
    → l ≤ u128_max
    → amount0_delta lo hi l up ≡ some q
    → (0 < lo * hi) × (q ≡ quotient (l * (hi - lo) * 2 ^ 64) (lo * hi) up)
unfolding amount0_delta
amount0_lem lo hi l up {q = q} le hb lb h =
    let lower : min lo hi ≡ lo = omega arith in
    let upper : max lo hi ≡ hi = omega arith in
    let n = wide_mul l (max lo hi - min lo hi) in
    let d = wide_mul (min lo hi) (max lo hi) in
    let raw : mul_div_256 n (2 ^ 64) d up ≡ some q =
      elim (Option-cases (mul_div_256 n (2 ^ 64) d up)) [
        | inl e ↦ ground arith
        | inr (x, e) ↦ ground arith
      ] in
    let num : n ≡ l * (hi - lo) =
      ap (λ t. wide_mul l t) (ap (λ t. max lo hi - t) lower ∙ ap (λ t. t - lo) upper)
      ∙ wide_mul_lem l (hi - lo) lb (omega arith) in
    let den : d ≡ lo * hi =
      ap (λ t. wide_mul t (max lo hi)) lower
      ∙ ap (λ t. wide_mul lo t) upper
      ∙ wide_mul_lem lo hi (omega arith) hb in
    let (pos, eq) = mul_div_256_inversion n (2 ^ 64) d up raw in
    (
      subst (λ t. 0 < t) den pos,
      eq
          ∙ ap (λ t. quotient (t * 2 ^ 64) d up) num
          ∙ ap (λ t. quotient (l * (hi - lo) * 2 ^ 64) t up) den,
    )

amount1_lem :
    (lo hi l : ℕ) (up : Bool) {q : ℕ}
    → lo ≤ hi
    → hi ≤ u128_max
    → l ≤ u128_max
    → amount1_delta lo hi l up ≡ some q
    → q ≡ quotient (l * (hi - lo)) (2 ^ 64) up
unfolding amount1_delta
amount1_lem lo hi l up le hb lb h =
    let lower : min lo hi ≡ lo = omega arith in
    let upper : max lo hi ≡ hi = omega arith in
    ground (arith, mul_div_ceil_lem l (hi - lo) q64 lb, mul_div_floor_lem l (hi - lo) q64 lb)

-- The liquidity `l` over the move between `lo` and `hi`: the input `x` pays for it, and the output `o` is
-- paid for by it. Down the input is the first token, up it is the second.
pub record Paid (down : Bool) (l lo hi x o : ℕ) : Type 0 where
  pub input : if down then l * (hi - lo) * 2 ^ 64 ≤ x * (lo * hi) else l * (hi - lo) ≤ x * 2 ^ 64
  pub output : if down then o * 2 ^ 64 ≤ l * (hi - lo) else o * (lo * hi) ≤ l * (hi - lo) * 2 ^ 64

pub deltas_down :
    (lo hi l : ℕ) {x o : ℕ}
    → lo ≤ hi
    → hi ≤ u128_max
    → l ≤ u128_max
    → deltas_to hi lo l true ≡ some (x, o)
    → (0 < lo * hi)
      × (x ≡ div_ceil (l * (hi - lo) * 2 ^ 64) (lo * hi))
      × (o ≡ l * (hi - lo) / 2 ^ 64)
unfolding deltas_to
deltas_down lo hi l le hb lb h = elim (Option-cases (amount0_delta lo hi l true)) [
  | inl e ↦ ground arith
  | inr (i, e) ↦ elim (Option-cases (amount1_delta lo hi l false)) [
    | inl e1 ↦ ground arith
    | inr (j, e1) ↦
        ground (arith, amount0_lem lo hi l true le hb lb e, amount1_lem lo hi l false le hb lb e1)
  ]
]

pub deltas_up :
    (lo hi l : ℕ) {x o : ℕ}
    → lo ≤ hi
    → hi ≤ u128_max
    → l ≤ u128_max
    → deltas_to lo hi l false ≡ some (x, o)
    → (0 < lo * hi)
      × (x ≡ div_ceil (l * (hi - lo)) (2 ^ 64))
      × (o ≡ l * (hi - lo) * 2 ^ 64 / (lo * hi))
unfolding deltas_to
deltas_up lo hi l le hb lb h = elim (Option-cases (amount1_delta lo hi l true)) [
  | inl e ↦ ground arith
  | inr (i, e) ↦ elim (Option-cases (amount0_delta lo hi l false)) [
    | inl e1 ↦ ground arith
    | inr (j, e1) ↦
        ground (arith, amount0_lem lo hi l false le hb lb e1, amount1_lem lo hi l true le hb lb e)
  ]
]

pub Paid-down :
    (lo hi l : ℕ) {x o : ℕ}
    → lo ≤ hi
    → hi ≤ u128_max
    → l ≤ u128_max
    → deltas_to hi lo l true ≡ some (x, o)
    → Paid true l lo hi x o
Paid-down lo hi l {x = x} {o = o} le hb lb h =
    let (pos, ex, eo) = deltas_down lo hi l le hb lb h in
    let covers : l * (hi - lo) * 2 ^ 64 ≤ x * (lo * hi) =
      rw ex (le-div_ceil-mul (l * (hi - lo) * 2 ^ 64) (lo * hi) pos) in
    let covered : o * 2 ^ 64 ≤ l * (hi - lo) = rw eo (div-mul-le (l * (hi - lo)) (2 ^ 64)) in
    record { input = covers; output = covered }

pub Paid-up :
    (lo hi l : ℕ) {x o : ℕ}
    → lo ≤ hi
    → hi ≤ u128_max
    → l ≤ u128_max
    → deltas_to lo hi l false ≡ some (x, o)
    → Paid false l lo hi x o
Paid-up lo hi l {x = x} {o = o} le hb lb h =
    let (pos, ex, eo) = deltas_up lo hi l le hb lb h in
    let covers : l * (hi - lo) ≤ x * 2 ^ 64 =
      rw ex (le-div_ceil-mul (l * (hi - lo)) (2 ^ 64) (omega arith)) in
    let covered : o * (lo * hi) ≤ l * (hi - lo) * 2 ^ 64 =
      rw eo (div-mul-le (l * (hi - lo) * 2 ^ 64) (lo * hi)) in
    record { input = covers; output = covered }

covered_down :
    (p l x m : ℕ)
    → m ≤ p
    → l * 2 ^ 64 * p ≤ m * (l * 2 ^ 64 + x * p)
    → l * (p - m) * 2 ^ 64 ≤ x * (m * p)
covered_down p l x m le h =
    let back : p ≡ p - m + m = omega arith in omega (arith, h, ap (λ (t : ℕ). l * t) back)

-- The new price down: not above the old one, and no further than the input pays for.
pub next_down :
    (p l x : ℕ) {n : ℕ}
    → p ≤ u128_max
    → x ≤ u128_max
    → next_sqrt_price_from_input p l x true ≡ some n
    → (n ≤ p) × (l * (p - n) * 2 ^ 64 ≤ x * (n * p))
unfolding next_sqrt_price_from_input
next_down p l x {n = n} pb xb h =
    let d = l * 2 ^ 64 + wide_mul x p in
    let w : d ≡ l * 2 ^ 64 + x * p = ap (λ t. l * 2 ^ 64 + t) (wide_mul_lem x p xb pb) in
    elim (Bool-cases (x == 0)) [
      | inl e ↦
          let same : n ≡ p = ground arith in
          let none_left : p - n ≡ 0 = omega arith in (omega arith, rw none_left (omega arith))
      | inr e ↦ elim (Option-cases (mul_div_256 (l * 2 ^ 64) p d true)) [
        | inl e1 ↦ ground arith
        | inr (m, e1) ↦
            let (pos, eq) = mul_div_256_inversion (l * 2 ^ 64) p d true e1 in
            let same : n ≡ m = ground arith in
            let up : l * 2 ^ 64 * p ≤ m * d = rw eq (le-div_ceil-mul (l * 2 ^ 64 * p) d pos) in
            let fits : l * 2 ^ 64 * p ≤ p * d =
              subst (λ t. l * 2 ^ 64 * p ≤ p * t) (sym w) (omega arith) in
            let le : m ≤ p = rw eq (div_ceil-le (l * 2 ^ 64 * p) d p pos fits) in
            rw same (le, covered_down p l x m le (subst (λ t. l * 2 ^ 64 * p ≤ m * t) w up))
      ]
    ]

pub next_up :
    (p l x : ℕ) {n : ℕ}
    → next_sqrt_price_from_input p l x false ≡ some n
    → (p ≤ n) × (l * (n - p) ≤ x * 2 ^ 64) × (n ≤ u128_max ⊎ (n ≡ p))
unfolding next_sqrt_price_from_input
next_up p l x {n = n} h = elim (Bool-cases (x == 0)) [
  | inl e ↦
      let same : n ≡ p = ground arith in
      let none_left : n - p ≡ 0 = omega arith in (omega arith, rw none_left (omega arith), inr same)
  | inr e ↦ elim (Option-cases (mul_div_floor x q64 l)) [
    | inl e1 ↦ ground arith
    | inr (q, e1) ↦
        let (pos, le) = mul_div_floor-le x q64 l e1 in
        let fits : n ≤ u128_max = ground arith in
        let rise : n ≡ p + q = ground arith in
        let step : n - p ≡ q = omega arith in
        let few : q * l ≤ x * q64 = omega (arith, mul-le-mul_right l le, div-mul-le (x * q64) l) in
        (omega arith, rw step (omega (arith, few)), inl fits)
  ]
]
