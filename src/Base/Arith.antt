-- ===== src/Base/Arith.antt =====
-- Facts on quotients, rounded down and up, that the pricing formulas share.
use Prim.Native.Nat.{ℕ, ◌+◌, ◌-◌, ◌*◌, ◌/◌, ◌≤◌, ◌<◌}
use mathlib.Core.Path.{◌≡◌, ap}
use mathlib.Core.Logic.{◌↔◌}
use native.Mathlib.Omega.{arith}
use native.Mathlib.Nat.{
  mul-le-mul_left, mul-le-mul_right, div-mul-le_self, lt-div-mul-add, le-div_iff_mul-le,
  div-lt_iff_lt-mul,
}
use flow_trades_solana.Base.Checked.{div_ceil}

pub div-mul-le : (a b : ℕ) → a / b * b ≤ a
div-mul-le a b = div-mul-le_self a b

pub lt-div-suc-mul : (a b : ℕ) → 0 < b → a < a / b * b + b
lt-div-suc-mul a b h = lt-div-mul-add h

pub le-div : (x a b : ℕ) → 0 < b → x * b ≤ a → x ≤ a / b
le-div x a b h = (le-div_iff_mul-le h).1

pub div-lt : (a b x : ℕ) → 0 < b → a < x * b → a / b < x
div-lt a b x h = (div-lt_iff_lt-mul h).1

-- A constant-product output stays below the reserve it is taken from.
pub div-add-lt : (r a d : ℕ) → 0 < r → 0 < d → r * a / (d + a) < r
div-add-lt r a d hr hd = div-lt (r * a) (d + a) r (omega arith) (grind (arith, mul-le-mul_left))

pub div_mono : (a b d : ℕ) → 0 < d → a ≤ b → a / d ≤ b / d
div_mono a b d hd h = le-div (a / d) b d hd (omega (arith, div-mul-le a d))

pub le-div_ceil-mul : (a b : ℕ) → 0 < b → a ≤ div_ceil a b * b
le-div_ceil-mul a b h = omega (arith, lt-div-suc-mul (a + (b - 1)) b h)

pub div_ceil-le : (a b x : ℕ) → 0 < b → a ≤ x * b → div_ceil a b ≤ x
div_ceil-le a b x h le =
    let e : a + (b - 1) < (x + 1) * b = omega arith in
    omega (arith, div-lt (a + (b - 1)) b (x + 1) h e)

pub div_ceil-mul-lt : (a b : ℕ) → 0 < b → div_ceil a b * b < a + b
div_ceil-mul-lt a b h = omega (arith, div-mul-le (a + (b - 1)) b)

-- A product that is known to be smaller has a smaller factor.
pub lt_of_mul-lt : (x y d : ℕ) → x * d < y * d → x < y
lt_of_mul-lt x y d h = grind (arith, mul-le-mul_right)

pub le_of_mul-le : (x y d : ℕ) → 0 < d → x * d ≤ y * d → x ≤ y
le_of_mul-le x y d hd h = grind (arith, mul-le-mul_right)

pub div_ceil-le_iff : (a b x : ℕ) → 0 < b → (div_ceil a b ≤ x) ↔ (a ≤ x * b)
div_ceil-le_iff a b x h =
    (λ le. omega (arith, le-div_ceil-mul a b h, mul-le-mul_right b le), div_ceil-le a b x h)

-- What a constant-product pool with reserves `d` and `r` pays for `x`, against a wanted amount `o`.
pub le-product_out_iff :
    (o r d x : ℕ) → 0 < d → o ≤ r → (o ≤ r * x / (d + x)) ↔ (o * d ≤ x * (r - o))
le-product_out_iff o r d x hd ho =
    let split : x * (r - o) + x * o ≡ x * r =
      omega (arith, ap (λ (t : ℕ). x * t) (cancel r o ho)) in
    (
      λ h. omega (arith, div-mul-le (r * x) (d + x), mul-le-mul_right (d + x) h),
      λ h. le-div o (r * x) (d + x) (omega arith) (omega arith),
    )
  where
    cancel : (r o : ℕ) → o ≤ r → (r - o) + o ≡ r
    cancel r o h = omega arith

-- The product of the reserves does not fall.
pub product_kept : (o r d x : ℕ) → o ≤ r → o * d ≤ x * (r - o) → d * r ≤ (d + x) * (r - o)
product_kept o r d x ho h =
    let e : (r - o) + o ≡ r = omega arith in omega (arith, ap (λ (t : ℕ). d * t) e)

pub le-div_iff : (x a b : ℕ) → 0 < b → (x ≤ a / b) ↔ (x * b ≤ a)
le-div_iff x a b h = le-div_iff_mul-le h

pub div-le_self_of_le : (x a b : ℕ) → 0 < b → a ≤ x * b → a / b ≤ x
div-le_self_of_le x a b h le = le_of_mul-le (a / b) x b h (omega (arith, div-mul-le a b))

-- A fee of `r` parts in `w` charged on top of what is left after that fee stays within the whole.
pub fee_on_top-le : (w a r u : ℕ) → r < w → u * w ≤ a * (w - r) → u + div_ceil (u * r) (w - r) ≤ a
fee_on_top-le w a r u hr h =
    let k = w - r in
    let whole : r + k ≡ w = omega arith in
    let less : a * k ≤ a * w = mul-le-mul_left a (omega arith) in
    let le : u ≤ a = le_of_mul-le u a w (omega arith) (omega (arith, h, less)) in
    let back : a - u + u ≡ a = omega arith in
    let cost : u * r ≤ (a - u) * k =
      omega (arith, h, ap (λ (t : ℕ). u * t) whole, ap (λ (t : ℕ). t * k) back) in
    omega (arith, div_ceil-le (u * r) k (a - u) (omega arith) cost)
