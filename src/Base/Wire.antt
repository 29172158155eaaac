-- ===== src/Base/Wire.antt =====
-- Bytes as they are written into an instruction or a transaction, and readers that take them off the
-- front of their input and leave the rest.
pub mod Laws
use Prim.Native.Nat.{ℕ, zero, suc, ◌+◌, ◌*◌, ◌/◌, ◌%◌}
use mathlib.Core.List.{List, [], ◌∷◌, ◌++◌}
use mathlib.Core.Option.{Option, none, some}
use flow_trades_solana.Base.Tests.{leb, if◌then◌else◌}
use flow_trades_solana.Base.Checked.{◌>>=◌}
use flow_trades_solana.Base.Lists.{length}
use flow_trades_solana.Base.Bytes.Laws.{to_le}
use flow_trades_solana.Base.Bytes.{Pubkey, take, drop, from_le, key_of}

-- The number in `width` bytes, big end first.
abbrev pub to_be : (width : ℕ) → ℕ → List ℕ
to_be zero n = []
to_be (suc w) n = to_be w (n / 256) ++ (n % 256 ∷ [])

-- `to_le_bytes` of an integer of that many bytes.
unfoldable pub to_le_bytes : (width : ℕ) → ℕ → List ℕ
to_le_bytes = to_le

-- `Pubkey::to_bytes`.
unfoldable pub key_bytes : Pubkey → List ℕ
key_bytes = to_be 32

unfoldable pub read_bytes {ℓ} : {A : Type ℓ} → (n : ℕ) → List A → Option (List A × List A)
read_bytes n xs = if leb n (length xs) then some (take n xs, drop n xs) else none

abbrev pub read_byte : List ℕ → Option (ℕ × List ℕ)
read_byte [] = none
read_byte (b ∷ rest) = some (b, rest)

unfoldable pub read_number : (width : ℕ) → List ℕ → Option (ℕ × List ℕ)
read_number w xs = read_bytes w xs >>= λ (bytes, rest). some (from_le bytes, rest)

unfoldable pub read_key : List ℕ → Option (Pubkey × List ℕ)
read_key xs = read_bytes 32 xs >>= λ (bytes, rest). some (key_of bytes, rest)
