-- ===== src/Base/Bytes.antt =====
-- The bytes of an account, and the integers that are read from them.
pub mod Laws
use Prim.Native.Nat.{ℕ, zero, suc, ◌+◌, ◌-◌, ◌*◌, ◌^◌}
use mathlib.Core.List.{List, [], ◌∷◌}
use mathlib.Core.Bool.{Bool, true, false, ◌&&◌}
use mathlib.Core.Option.{Option, none, some}
use flow_trades_solana.Base.Tests.{leb, ltb, ◌==◌, if◌then◌else◌}
use flow_trades_solana.Base.Checked.{◌>>=◌}
use flow_trades_solana.Base.Lists.{length}
use flow_trades_solana.Base.Int.{ℤ, pos, negsuc}

-- A key is its 256-bit number, big end first, which has the order of the bytes.
abbrev pub Pubkey : Type 0
Pubkey = ℕ

abbrev pub take {ℓ} : {A : Type ℓ} → ℕ → List A → List A
take n [] = []
take zero (x ∷ xs) = []
take (suc n) (x ∷ xs) = x ∷ take n xs

abbrev pub drop {ℓ} : {A : Type ℓ} → ℕ → List A → List A
drop n [] = []
drop zero (x ∷ xs) = x ∷ xs
drop (suc n) (x ∷ xs) = drop n xs

-- `get(from..to)`, and `data[from..to]`, which panics where this is `none`.
abbrev pub slice : List ℕ → (from to : ℕ) → Option (List ℕ)
slice d a b = if leb a b && leb b (length d) then some (take (b - a) (drop a d)) else none

abbrev pub from_le : List ℕ → ℕ
from_le [] = 0
from_le (b ∷ rest) = b + 256 * from_le rest

abbrev pub key_onto : ℕ → List ℕ → Pubkey
key_onto n [] = n
key_onto n (b ∷ rest) = key_onto (n * 256 + b) rest

abbrev pub key_of : List ℕ → Pubkey
key_of = key_onto 0

-- The little-endian number of `width` bytes at `at`.
abbrev pub number_at : List ℕ → (at width : ℕ) → Option ℕ
number_at d a w = slice d a (a + w) >>= λ s. some (from_le s)

abbrev pub key_at : List ℕ → (at : ℕ) → Option Pubkey
key_at d a = slice d a (a + 32) >>= λ s. some (key_of s)

-- A signed number from its bits, of which there are `width`.
abbrev pub signed : (width : ℕ) → ℕ → ℤ
signed w m = if ltb m (2 ^ (w - 1)) then pos m else negsuc (2 ^ w - 1 - m)

abbrev pub equal_bytes : List ℕ → List ℕ → Bool
equal_bytes [] [] = true
equal_bytes [] (y ∷ ys) = false
equal_bytes (x ∷ xs) [] = false
equal_bytes (x ∷ xs) (y ∷ ys) = x == y && equal_bytes xs ys
