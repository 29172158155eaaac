-- ===== src/Clmm/Wide.antt =====
-- quote/clmm.rs: products of two 128-bit integers in 256 bits, and `a * b / d` by the shortest way.
mod Tests
pub mod Laws
use flow_trades_solana.Base.{
  ℕ, ◌+◌, ◌-◌, ◌*◌, ◌/◌, ◌%◌, ◌^◌, Bool, Option, none, some, ◌&&◌, not, leb, ◌==◌, if◌then◌else◌,
  ◌>>=◌, fit, u128_max, div_ceil,
}

abbrev pub u256_max : ℕ
u256_max = 2 ^ 256 - 1

abbrev pub to_u128 : ℕ → Option ℕ
to_u128 = fit u128_max

-- Four 64-bit limbs, from four products; `|` joins bits that do not meet.
unfoldable pub wide_mul : ℕ → ℕ → ℕ
wide_mul a b =
    let a0 = a % 2 ^ 64 in
    let a1 = a / 2 ^ 64 in
    let b0 = b % 2 ^ 64 in
    let b1 = b / 2 ^ 64 in
    let ll = a0 * b0 in
    let lh = a0 * b1 in
    let hl = a1 * b0 in
    let hh = a1 * b1 in
    let mid = ll / 2 ^ 64 + lh % 2 ^ 64 + hl % 2 ^ 64 in
    let lo = ll % 2 ^ 64 + mid * 2 ^ 64 % 2 ^ 128 in
    let hi = (hh + lh / 2 ^ 64 + hl / 2 ^ 64 + mid / 2 ^ 64) % 2 ^ 128 in lo + hi * 2 ^ 128

-- On 512 bits; the product of two 256-bit operands fits.
pub mul_div_512 : ℕ → ℕ → ℕ → Bool → Option ℕ
mul_div_512 a b d round_up =
    if d == 0
    then none
    else (let q = a * b / d in fit u256_max (if round_up && not (a * b % d == 0) then q + 1 else q))

-- On 256 bits where the product fits them.
unfoldable pub mul_div_256 : ℕ → ℕ → ℕ → Bool → Option ℕ
mul_div_256 a b d round_up =
    if d == 0
    then none
    else if leb (a * b) u256_max
    then (let q = a * b / d in
        if round_up && not (a * b % d == 0) then fit u256_max (q + 1) else some q)
    else mul_div_512 a b d round_up

unfoldable pub mul_div_floor : ℕ → ℕ → ℕ → Option ℕ
mul_div_floor a b d =
    if d == 0
    then none
    else if leb (a * b) u128_max
    then some (a * b / d)
    else to_u128 (wide_mul a b / d)

unfoldable pub mul_div_ceil : ℕ → ℕ → ℕ → Option ℕ
mul_div_ceil a b d =
    if d == 0
    then none
    else if leb (a * b) u128_max
    then some (div_ceil (a * b) d)
    else (to_u128 (wide_mul a b / d) >>= λ q.
        if wide_mul a b % d == 0 then some q else fit u128_max (q + 1))
