-- ===== src/Base/Checked.antt =====
-- Rust's machine integers as naturals: the largest value of each width, and the operations that
-- return `None` where the result does not fit.
use Prim.Native.Nat.{ℕ, ◌+◌, ◌-◌, ◌*◌, ◌/◌, ◌^◌, min}
use mathlib.Core.Path.{◌≡◌, refl}
use mathlib.Core.Bool.{Bool, true, false}
use native.Mathlib.Omega.{arith}
use mathlib.Core.Option.{Option, none, some}
use flow_trades_solana.Base.Tests.{leb, ◌==◌, if◌then◌else◌}

abbrev pub u16_max : ℕ
u16_max = 2 ^ 16 - 1

abbrev pub u32_max : ℕ
u32_max = 2 ^ 32 - 1

abbrev pub u64_max : ℕ
u64_max = 2 ^ 64 - 1

abbrev pub u128_max : ℕ
u128_max = 2 ^ 128 - 1

-- The `?` operator on `Option`, and an early `return None`.
infixl 5 ◌>>=◌ ◌>>◌
abbrev pub ◌>>=◌ {ℓ κ} : {A : Type ℓ} {B : Type κ} → Option A → (A → Option B) → Option B
none >>= f = none
some a >>= f = f a

abbrev pub ◌>>◌ {ℓ} : {B : Type ℓ} → Option (Unit {0}) → Option B → Option B
m >> k = m >>= λ _. k

abbrev pub refuse_if : Bool → Option (Unit {0})
refuse_if true = none
refuse_if false = some tt

-- `n` if it is at most `limit`: `try_from` into a type with that largest value.
abbrev pub fit : ℕ → ℕ → Option ℕ
fit limit n = if leb n limit then some n else none

abbrev pub to_u64 : ℕ → Option ℕ
to_u64 = fit u64_max

-- On `u128`.
abbrev pub checked_add : ℕ → ℕ → Option ℕ
checked_add a b = fit u128_max (a + b)

abbrev pub checked_mul : ℕ → ℕ → Option ℕ
checked_mul a b = fit u128_max (a * b)

-- On any width.
abbrev pub checked_sub : ℕ → ℕ → Option ℕ
checked_sub a b = if leb b a then some (a - b) else none

abbrev pub checked_div : ℕ → ℕ → Option ℕ
checked_div a b = if b == 0 then none else some (a / b)

-- On `u64`.
abbrev pub checked_add_u64 : ℕ → ℕ → Option ℕ
checked_add_u64 a b = fit u64_max (a + b)

abbrev pub checked_mul_u64 : ℕ → ℕ → Option ℕ
checked_mul_u64 a b = fit u64_max (a * b)

abbrev pub saturating_add_u64 : ℕ → ℕ → ℕ
saturating_add_u64 a b = min (a + b) u64_max

-- `a.div_ceil(b)`, the quotient rounded up, for a positive `b`.
abbrev pub div_ceil : ℕ → ℕ → ℕ
div_ceil a b = (a + (b - 1)) / b

-- A chain that answers has answered at its first step.
pub answered {ℓ κ} :
    {A : Type ℓ} {B : Type κ} (o : Option A) {f : A → Option B} {r : B}
    → (o >>= f) ≡ some r
    → (a : A) × (o ≡ some a) × (f a ≡ some r)
answered none h = ground arith
answered (some a) h = (a, refl, h)
