-- ===== src/Base/Int.antt =====
-- Signed integers over the native numbers, under the library's names.
use Prim.Native.Nat.{ℕ, zero, suc, ◌+◌, ◌-◌, ◌*◌, ◌/◌, ◌%◌, ◌^◌, ◌≤◌}
use mathlib.Core.Bool.{Bool, ◌&&◌}
use flow_trades_solana.Base.Tests.{ltb, leb, ◌==◌, if◌then◌else◌}

-- `negsuc n` is -(n + 1).
pub data ℤ : Type 0 where
  pos : ℕ → ℤ
  negsuc : ℕ → ℤ

abbrev pub pos_part : ℤ → ℕ
pos_part (pos n) = n
pos_part (negsuc n) = 0

abbrev pub neg_part : ℤ → ℕ
neg_part (pos n) = 0
neg_part (negsuc n) = suc n

abbrev pub sub_ℕ : ℕ → ℕ → ℤ
sub_ℕ a b = if leb b a then pos (a - b) else negsuc (b - a - 1)

infixl 65 ◌+ℤ◌ ◌-ℤ◌
infixl 70 ◌*ℤ◌
infix 50 ◌≤ℤ◌
abbrev pub ◌+ℤ◌ : ℤ → ℤ → ℤ
a +ℤ b = sub_ℕ (pos_part a + pos_part b) (neg_part a + neg_part b)

abbrev pub ◌-ℤ◌ : ℤ → ℤ → ℤ
a -ℤ b = sub_ℕ (pos_part a + neg_part b) (neg_part a + pos_part b)

abbrev pub ◌≤ℤ◌ : ℤ → ℤ → Type 0
a ≤ℤ b = pos_part a + neg_part b ≤ pos_part b + neg_part a

abbrev pub ltb_ℤ : ℤ → ℤ → Bool
ltb_ℤ a b = ltb (pos_part a + neg_part b) (pos_part b + neg_part a)

abbrev pub leb_ℤ : ℤ → ℤ → Bool
leb_ℤ a b = leb (pos_part a + neg_part b) (pos_part b + neg_part a)

-- The sign by cases, so that `n` zero is no negative number.
abbrev pub neg_ℕ : ℕ → ℤ
neg_ℕ zero = pos 0
neg_ℕ (suc n) = negsuc n

abbrev pub ◌*ℤ◌ : ℤ → ℕ → ℤ
◌*ℤ◌ (pos n) m = pos (n * m)
◌*ℤ◌ (negsuc n) m = neg_ℕ (suc n * m)

abbrev pub neg_ℤ : ℤ → ℤ
neg_ℤ (pos n) = neg_ℕ n
neg_ℤ (negsuc n) = pos (suc n)

-- `div_euclid` by a positive number: -(n + 1) over m is -(n / m + 1).
abbrev pub div_euclid : ℤ → ℕ → ℤ
div_euclid (pos n) m = pos (n / m)
div_euclid (negsuc n) m = negsuc (n / m)

-- `/`, which rounds towards zero.
abbrev pub div_trunc : ℤ → ℕ → ℤ
div_trunc (pos n) m = pos (n / m)
div_trunc (negsuc n) m = neg_ℕ (suc n / m)

abbrev pub is_multiple : ℤ → ℕ → Bool
is_multiple a m = (pos_part a + neg_part a) % m == 0

-- `(a - b).unsigned_abs()`.
abbrev pub abs_diff : ℤ → ℤ → ℕ
abs_diff a b = pos_part (a -ℤ b) + neg_part (a -ℤ b)

abbrev pub min_ℤ : ℤ → ℤ → ℤ
min_ℤ a b = if leb_ℤ a b then a else b

abbrev pub max_ℤ : ℤ → ℤ → ℤ
max_ℤ a b = if leb_ℤ a b then b else a

abbrev pub eq_ℤ : ℤ → ℤ → Bool
eq_ℤ a b = leb_ℤ a b && leb_ℤ b a

-- An `i32` from its 32 bits, and the wrap-around of its arithmetic.
abbrev pub i32_of_bits : ℕ → ℤ
i32_of_bits m = if ltb m (2 ^ 31) then pos m else negsuc (2 ^ 32 - 1 - m)

abbrev pub wrap_i32 : ℤ → ℤ
wrap_i32 (pos n) = i32_of_bits (n % 2 ^ 32)
wrap_i32 (negsuc n) = i32_of_bits (2 ^ 32 - 1 - n % 2 ^ 32)
