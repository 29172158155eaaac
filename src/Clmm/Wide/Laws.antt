-- ===== src/Clmm/Wide/Laws.antt =====
-- quote/clmm.rs: theorems on the wide products and quotients.
use flow_trades_solana.Base.{
  ℕ, ◌+◌, ◌-◌, ◌*◌, ◌/◌, ◌%◌, ◌^◌, ◌≤◌, ◌<◌, ◌≡◌, refl, sym, ap, ◌∙◌, Bool, Option, none, some,
  ◌==◌, ==_iff, if◌then◌else◌, fit, u128_max, div_ceil, arith, inl, inr, Bool-cases, mul-le-mul,
}
use native.Mathlib.Nat.{div-add-mod', mod-lt, div-eq_of_lt-le, div-le_self}
use flow_trades_solana.Base.Arith.{div_mono}
use flow_trades_solana.Clmm.Wide.{
  u256_max, wide_mul, mul_div_512, mul_div_256, mul_div_floor, mul_div_ceil,
}

-- Products from the limbs, before the sum of the high ones is cut.
limbs :
    (a0 a1 b0 b1 : ℕ)
    → (a1 * 2 ^ 64 + a0) * (b1 * 2 ^ 64 + b0)
      ≡ a1 * b1 * 2 ^ 128 + (a0 * b1 + a1 * b0) * 2 ^ 64 + a0 * b0
limbs a0 a1 b0 b1 = omega arith

-- The sum of the limbs, in which only the high part may be cut.
carried :
    (ll lh hl hh : ℕ)
    → let mid = ll / 2 ^ 64 + lh % 2 ^ 64 + hl % 2 ^ 64 in
      ll % 2 ^ 64
        + mid * 2 ^ 64 % 2 ^ 128
        + (hh + lh / 2 ^ 64 + hl / 2 ^ 64 + mid / 2 ^ 64) * 2 ^ 128
      ≡ hh * 2 ^ 128 + (lh + hl) * 2 ^ 64 + ll
carried ll lh hl hh = omega arith

split : (a : ℕ) → a / 2 ^ 64 * 2 ^ 64 + a % 2 ^ 64 ≡ a
split a = omega arith

-- The high limbs of a product, uncut.
high : ℕ → ℕ → ℕ
high a b =
    let lh = a % 2 ^ 64 * (b / 2 ^ 64) in
    let hl = a / 2 ^ 64 * (b % 2 ^ 64) in
    let mid = a % 2 ^ 64 * (b % 2 ^ 64) / 2 ^ 64 + lh % 2 ^ 64 + hl % 2 ^ 64 in
    a / 2 ^ 64 * (b / 2 ^ 64) + lh / 2 ^ 64 + hl / 2 ^ 64 + mid / 2 ^ 64

low : ℕ → ℕ → ℕ
low a b =
    let ll = a % 2 ^ 64 * (b % 2 ^ 64) in
    let mid =
      ll / 2 ^ 64 + a % 2 ^ 64 * (b / 2 ^ 64) % 2 ^ 64 + a / 2 ^ 64 * (b % 2 ^ 64) % 2 ^ 64 in
    ll % 2 ^ 64 + mid * 2 ^ 64 % 2 ^ 128

whole : (a b : ℕ) → low a b + high a b * 2 ^ 128 ≡ a * b
unfolding low high
whole a b =
    carried (a % 2 ^ 64 * (b % 2 ^ 64)) (a % 2 ^ 64 * (b / 2 ^ 64)) (a / 2 ^ 64 * (b % 2 ^ 64))
      (a / 2 ^ 64 * (b / 2 ^ 64))
    ∙ sym (limbs (a % 2 ^ 64) (a / 2 ^ 64) (b % 2 ^ 64) (b / 2 ^ 64))
    ∙ ap (λ t. t * (b / 2 ^ 64 * 2 ^ 64 + b % 2 ^ 64)) (split a)
    ∙ ap (λ t. a * t) (split b)

cut : (a b : ℕ) → wide_mul a b ≡ low a b + high a b % 2 ^ 128 * 2 ^ 128
unfolding wide_mul low high
cut a b = refl

pub wide_mul-le : (a b : ℕ) → wide_mul a b ≤ a * b
wide_mul-le a b = omega (arith, cut a b, whole a b)

-- On 128-bit operands the product put together from four 64-bit limbs is the product.
pub wide_mul_lem : (a b : ℕ) → a ≤ u128_max → b ≤ u128_max → wide_mul a b ≡ a * b
wide_mul_lem a b ha hb =
    let small : a * b ≤ u128_max * u128_max = mul-le-mul ha hb in
    omega (arith, cut a b, whole a b, small)

-- The quotient that rounds as it is told, from the quotient and the remainder.
rounded : (n d : ℕ) → 0 < d → div_ceil n d ≡ (if n % d == 0 then n / d else n / d + 1)
rounded n d h =
    let q = n / d in
    let whole_n : q * d + n % d ≡ n = div-add-mod' n d in
    let small : n % d < d = mod-lt n h in
    let at = λ (k : ℕ) (below : k * d ≤ n + (d - 1)) (above : n + (d - 1) < (k + 1) * d).
      div-eq_of_lt-le {k = k} d {m = n + (d - 1)} below above in
    elim (Bool-cases (n % d == 0)) [
      | inl e ↦
          let none_left : n % d ≡ 0 = (==_iff (n % d) 0).0 e in
          rw e (at q (omega (arith, whole_n, none_left)) (omega (arith, whole_n, none_left)))
      | inr e ↦
          let some_left : 0 < n % d = ground arith in
          rw e (at (q + 1) (omega (arith, whole_n, some_left)) (omega (arith, whole_n, small)))
    ]

-- `a * b / d` on operands of any size, in the rounding that is asked for, where it fits 256 bits.
pub mul_div_exact : ℕ → ℕ → ℕ → Bool → Option ℕ
mul_div_exact a b d round_up =
    if d == 0 then none else fit u256_max (if round_up then div_ceil (a * b) d else a * b / d)

pub mul_div_256_lem : (a b d : ℕ) (up : Bool) → mul_div_256 a b d up ≡ mul_div_exact a b d up
unfolding mul_div_256 mul_div_512 mul_div_exact
mul_div_256_lem a b d up = ground (arith, rounded (a * b) d, div_mono (a * b) u256_max d)

-- The quotient in the rounding that is asked for.
abbrev pub quotient : (n d : ℕ) → Bool → ℕ
quotient n d up = if up then div_ceil n d else n / d

pub mul_div_256_inversion :
    (a b d : ℕ) (up : Bool) {q : ℕ}
    → mul_div_256 a b d up ≡ some q
    → (0 < d) × (q ≡ quotient (a * b) d up)
unfolding mul_div_exact
mul_div_256_inversion a b d up h = ground (arith, mul_div_256_lem a b d up)

pub mul_div_floor_lem :
    (a b d : ℕ)
    → a ≤ u128_max
    → b ≤ u128_max
    → mul_div_floor a b d ≡ (if d == 0 then none else fit u128_max (a * b / d))
unfolding mul_div_floor
mul_div_floor_lem a b d ha hb = ground (arith, wide_mul_lem a b ha hb, div-le_self (a * b) d)

pub mul_div_ceil_lem :
    (a b d : ℕ)
    → a ≤ u128_max
    → b ≤ u128_max
    → mul_div_ceil a b d ≡ (if d == 0 then none else fit u128_max (div_ceil (a * b) d))
unfolding mul_div_ceil
mul_div_ceil_lem a b d ha hb =
    ground (arith, wide_mul_lem a b ha hb, rounded (a * b) d, div-le_self (a * b) d)

ceil_mono : (a b d : ℕ) → a ≤ b → 0 < d → div_ceil a d ≤ div_ceil b d
ceil_mono a b d le h = div_mono (a + (d - 1)) (b + (d - 1)) d h (omega arith)

pub mul_div_floor-le :
    (a b d : ℕ) {r : ℕ} → mul_div_floor a b d ≡ some r → (0 < d) × (r ≤ a * b / d)
unfolding mul_div_floor
mul_div_floor-le a b d h = ground (arith, div_mono (wide_mul a b) (a * b) d, wide_mul-le a b)

pub mul_div_ceil-le :
    (a b d : ℕ) {r : ℕ} → mul_div_ceil a b d ≡ some r → (0 < d) × (r ≤ div_ceil (a * b) d)
unfolding mul_div_ceil
mul_div_ceil-le a b d h = ground (
  arith,
  rounded (wide_mul a b) d,
  rounded (a * b) d,
  ceil_mono (wide_mul a b) (a * b) d (wide_mul-le a b),
)
