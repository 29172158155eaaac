-- ===== src/DammV2/Price.antt =====
-- quote/damm_v2.rs: the steps of a square-root price (Q64.64) and the amounts between two prices.
mod Tests
use flow_trades_solana.Base.{
  ℕ, ◌+◌, ◌-◌, ◌*◌, ◌/◌, ◌^◌, ◌≤◌, ◌<◌, ◌≡◌, ap, Bool, true, false, Option, none, some, ◌||◌, ltb,
  ◌==◌, if◌then◌else◌, ◌>>=◌, ◌>>◌, refuse_if, to_u64, fit, u128_max, checked_add, div_ceil, arith,
  mul-le-mul_right, mul-le-mul_left,
}
use native.Mathlib.Nat.{mul-pos}
use flow_trades_solana.Base.Arith.{div-mul-le, le-div_ceil-mul, div_ceil-le}

abbrev pub fee_denominator : ℕ
fee_denominator = 1_000_000_000

unfoldable pub mul_div : ℕ → ℕ → ℕ → Bool → Option ℕ
mul_div a b d round_up =
    if d == 0 then none else some (if round_up then div_ceil (a * b) d else a * b / d)

unfoldable pub delta_a : ℕ → ℕ → ℕ → Bool → Option ℕ
delta_a lower upper liquidity round_up = do
  refuse_if (lower == 0 || ltb upper lower)
  let num = liquidity * (upper - lower)
  let den = lower * upper
  to_u64 (if round_up then div_ceil num den else num / den)

pub delta_b : ℕ → ℕ → ℕ → Bool → Option ℕ
delta_b lower upper liquidity round_up = do
  refuse_if (ltb upper lower)
  let prod = liquidity * (upper - lower)
  to_u64 (if round_up then div_ceil prod (2 ^ 128) else prod / 2 ^ 128)

pub next_sqrt_price_from_a : ℕ → ℕ → ℕ → Option ℕ
unfolding mul_div
next_sqrt_price_from_a sqrt_price liquidity amount = do
  q ← mul_div liquidity sqrt_price (liquidity + amount * sqrt_price) true
  fit u128_max q

unfoldable pub next_sqrt_price_from_b : ℕ → ℕ → ℕ → Option ℕ
next_sqrt_price_from_b sqrt_price liquidity amount = do
  refuse_if (liquidity == 0)
  step ← fit u128_max (amount * 2 ^ 128 / liquidity)
  checked_add sqrt_price step

-- The amount of A between two prices, rounded down, is paid for by the liquidity there.
pub delta_a-le :
    (lower upper l : ℕ) {o : ℕ}
    → delta_a lower upper l false ≡ some o
    → (0 < lower) × (lower ≤ upper) × (o * (lower * upper) ≤ l * (upper - lower))
unfolding delta_a
delta_a-le lower upper l h = ground (arith, div-mul-le (l * (upper - lower)) (lower * upper))

pub delta_b-le :
    (lower upper l : ℕ) {o : ℕ}
    → delta_b lower upper l false ≡ some o
    → (lower ≤ upper) × (o * 2 ^ 128 ≤ l * (upper - lower))
unfolding delta_b
delta_b-le lower upper l h = ground arith

-- Selling A lowers the price to a positive one, by no more than the amount sold pays for.
pub next_sqrt_price_from_a_bounds :
    (p l x : ℕ) {n : ℕ}
    → 0 < p
    → 0 < l
    → next_sqrt_price_from_a p l x ≡ some n
    → (0 < n) × (n ≤ p) × (l * (p - n) ≤ x * p * n)
unfolding next_sqrt_price_from_a
next_sqrt_price_from_a_bounds p l x {n} pp pl h =
    let d = l + x * p in
    let e : n ≡ div_ceil (l * p) d = ground arith in
    let up : l * p ≤ n * d = rw e (le-div_ceil-mul (l * p) d (omega arith)) in
    let le : n ≤ p = rw e (div_ceil-le (l * p) d p (omega arith) (omega arith)) in
    let back : p ≡ p - n + n = omega arith in
    let pos : 0 < l * p = mul-pos pl pp in
    (grind arith, le, omega (arith, up, ap (λ (t : ℕ). l * t) back))

-- Buying A raises the price, by no more than the amount of B paid covers.
pub next_sqrt_price_from_b_bounds :
    (p l x : ℕ) {n : ℕ}
    → next_sqrt_price_from_b p l x ≡ some n
    → (0 < l) × (p ≤ n) × (l * (n - p) ≤ x * 2 ^ 128)
unfolding next_sqrt_price_from_b
next_sqrt_price_from_b_bounds p l x {n} h =
    let e : (0 < l) × (n ≡ p + x * 2 ^ 128 / l) = ground arith in
    let back : n - p ≡ x * 2 ^ 128 / l = omega arith in
    (e.0, omega arith, rw back (omega (arith, div-mul-le (x * 2 ^ 128) l)))

pub next_sqrt_price_from_b-eq :
    (p l x : ℕ) {n : ℕ} → next_sqrt_price_from_b p l x ≡ some n → n ≡ p + x * 2 ^ 128 / l
unfolding next_sqrt_price_from_b
next_sqrt_price_from_b-eq p l x h = ground arith
