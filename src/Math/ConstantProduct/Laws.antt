-- ===== src/Math/ConstantProduct/Laws.antt =====
-- quote/math.rs: theorems on the constant-product formula.
use flow_trades_solana.Base.{
  ℕ, ◌+◌, ◌-◌, ◌*◌, ◌/◌, ◌≤◌, ◌<◌, ◌≡◌, ap, ◌↔◌, min, some, arith, le→leb, u64_max, u128_max,
  mul-le-mul_left, mul-le-mul_right, mul-le-mul,
}
use flow_trades_solana.Base.Arith.{div-add-lt, div_ceil-le_iff, le-product_out_iff, product_kept}
use flow_trades_solana.Base.{div_ceil}
use flow_trades_solana.Math.ConstantProduct.{
  compute_constant_product_out, compute_constant_product_in,
}

-- The input that the curve sees, in units of 1/10000.
abbrev pub scaled_in : ℕ → ℕ → ℕ
scaled_in amount fee_bps = amount * (10_000 - min fee_bps 10_000)

abbrev pub ideal_out : ℕ → ℕ → ℕ → ℕ → ℕ
ideal_out r_in r_out amount fee_bps =
    r_out * scaled_in amount fee_bps / (r_in * 10_000 + scaled_in amount fee_bps)

pub out_inversion :
    (r_in r_out amount fee : ℕ) {o : ℕ}
    → compute_constant_product_out r_in r_out amount fee ≡ some o
    → (0 < r_in) × (0 < r_out) × (0 < amount) × (o ≡ ideal_out r_in r_out amount fee)
unfolding compute_constant_product_out
out_inversion r_in r_out amount fee h = ground arith

pub in_inversion :
    (r_in r_out o fee : ℕ) {a : ℕ}
    → compute_constant_product_in r_in r_out o fee ≡ some a
    → (0 < r_in)
      × (0 < o)
      × (o < r_out)
      × (fee < 10_000)
      × (a ≡ div_ceil (r_in * o * 10_000) ((r_out - o) * (10_000 - fee)))
unfolding compute_constant_product_in
in_inversion r_in r_out o fee h = ground arith

-- A quoted output is below the output reserve, and the product of the reserves after the swap, the
-- whole input counted, is at least the product before it.
pub compute_constant_product_out_keeps_product :
    (r_in r_out amount fee : ℕ) {o : ℕ}
    → compute_constant_product_out r_in r_out amount fee ≡ some o
    → (o < r_out) × (r_in * r_out ≤ (r_in + amount) * (r_out - o))
compute_constant_product_out_keeps_product r_in r_out amount fee {o} h =
    let (pi, po, pa, e) = out_inversion r_in r_out amount fee h in
    let below : o < r_out = rw e (div-add-lt r_out _ (r_in * 10_000) po (omega arith)) in
    let paid =
      (le-product_out_iff o r_out (r_in * 10_000) (scaled_in amount fee) (omega arith)
          (omega arith)).0
        (omega arith) in
    let part : scaled_in amount fee ≤ amount * 10_000 = mul-le-mul_left amount (omega arith) in
    (
      below,
      product_kept o r_out r_in amount (omega arith)
          (omega (arith, paid, mul-le-mul_right (r_out - o) part)),
    )

-- Where reserves and amount are non-zero `u64` values, the quote succeeds, and is the exact quotient
-- of the formula, rounded down.
pub compute_constant_product_out_total :
    (r_in r_out amount fee : ℕ)
    → 0 < r_in
    → 0 < r_out
    → 0 < amount
    → r_in * 10_000 + amount * 10_000 ≤ u128_max
    → r_out ≤ u64_max
    → r_out * amount * 10_000 ≤ u128_max
    → compute_constant_product_out r_in r_out amount fee ≡ some (ideal_out r_in r_out amount fee)
unfolding compute_constant_product_out
compute_constant_product_out_total r_in r_out amount fee pi po pa bi bo fits =
    let x = amount * (10_000 - min fee 10_000) in
    let part : x ≤ amount * 10_000 = mul-le-mul_left amount (omega arith) in
    let below : r_out * x / (r_in * 10_000 + x) < r_out =
      div-add-lt r_out x (r_in * 10_000) po (omega arith) in
    let product : r_out * x ≤ u128_max = omega (arith, mul-le-mul_left r_out part) in
    let input : x ≤ r_out * amount * 10_000 = omega (arith, part, mul-le-mul_right amount po) in
    let sum : r_in * 10_000 + x ≤ u128_max = omega arith in
    ground (arith, below, le→leb x u128_max (omega arith), le→leb _ _ product, le→leb _ _ sum)

-- The exact-output quote is the least input: it and any larger amount, where quoted, yield at
-- least the wanted output, and any smaller amount yields less.
pub compute_constant_product_in_least :
    (r_in r_out o fee b : ℕ) {a p : ℕ}
    → compute_constant_product_in r_in r_out o fee ≡ some a
    → compute_constant_product_out r_in r_out b fee ≡ some p
    → (o ≤ p) ↔ (a ≤ b)
compute_constant_product_in_least r_in r_out o fee b {a} {p} h k =
    let (pi, po, lt, lf, ea) = in_inversion r_in r_out o fee h in
    let (_, _, _, ep) = out_inversion r_in r_out b fee k in
    let m : 10_000 - min fee 10_000 ≡ 10_000 - fee = omega arith in
    let room : 0 < (r_out - o) * (10_000 - fee) = grind (arith, mul-le-mul) in
    let bought =
      le-product_out_iff o r_out (r_in * 10_000) (scaled_in b fee) (omega arith) (omega arith) in
    let needed = div_ceil-le_iff (r_in * o * 10_000) ((r_out - o) * (10_000 - fee)) b room in
    rw (ea, ep)
      (
        λ le. needed.1 (omega (arith, bought.0 le, ap (λ (t : ℕ). b * t * (r_out - o)) m)),
        λ le. bought.1 (omega (arith, needed.0 le, ap (λ (t : ℕ). b * t * (r_out - o)) m)),
      )

-- A larger input or a lower fee never quotes a smaller output.
pub compute_constant_product_out_mono :
    (r_in r_out a b fee fee' : ℕ) {o p : ℕ}
    → a ≤ b
    → fee' ≤ fee
    → compute_constant_product_out r_in r_out a fee ≡ some o
    → compute_constant_product_out r_in r_out b fee' ≡ some p
    → o ≤ p
compute_constant_product_out_mono r_in r_out a b fee fee' {o} ab ff h k =
    let (pi, po, _, eo) = out_inversion r_in r_out a fee h in
    let (_, _, _, ep) = out_inversion r_in r_out b fee' k in
    let below : o < r_out = rw eo (div-add-lt r_out _ (r_in * 10_000) po (omega arith)) in
    let paid =
      (le-product_out_iff o r_out (r_in * 10_000) (scaled_in a fee) (omega arith) (omega arith)).0
        (omega arith) in
    let more : scaled_in a fee ≤ scaled_in b fee' = mul-le-mul ab (omega arith) in
    rw ep (
      (le-product_out_iff o r_out (r_in * 10_000) (scaled_in b fee') (omega arith) (omega arith)).1
        (omega (arith, paid, mul-le-mul_right (r_out - o) more)))
