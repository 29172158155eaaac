-- ===== src/Base/Wire/Laws.antt =====
-- What is written is read back, with any bytes after it.
use Prim.Native.Nat.{ℕ, zero, suc, ◌+◌, ◌*◌, ◌/◌, ◌%◌, ◌^◌, ◌<◌}
use mathlib.Core.List.{List, [], ◌∷◌, ◌++◌, append-nil}
use mathlib.Core.Path.{◌≡◌, refl, sym, ap, ◌∙◌}
use mathlib.Core.Bool.{true}
use mathlib.Core.Option.{some}
use native.Mathlib.Omega.{arith}
use flow_trades_solana.Base.Tests.{leb, le→leb}
use flow_trades_solana.Base.Lists.{length}
use flow_trades_solana.Base.Bytes.{Pubkey, from_le, key_onto}
use flow_trades_solana.Base.Bytes.Laws.{to_le, length-append, take-append, drop-append}
use flow_trades_solana.Base.Wire.{to_be, to_le_bytes, key_bytes, read_bytes, read_number, read_key}

length-to_le : (w n : ℕ) → length (to_le w n) ≡ w
length-to_le zero n = refl
length-to_le (suc w) n = omega (arith, length-to_le w (n / 256))

length-to_be : (w n : ℕ) → length (to_be w n) ≡ w
length-to_be zero n = refl
length-to_be (suc w) n =
    omega (arith, length-append (to_be w (n / 256)) (n % 256 ∷ []), length-to_be w (n / 256))

from_le-to_le : (w n : ℕ) → n < 256 ^ w → from_le (to_le w n) ≡ n
from_le-to_le zero n h = omega arith
from_le-to_le (suc w) n h = omega (arith, from_le-to_le w (n / 256) (omega arith))

key_onto-append :
    (m : ℕ) (xs : List ℕ) (b : ℕ) → key_onto m (xs ++ (b ∷ [])) ≡ key_onto m xs * 256 + b
key_onto-append m [] b = refl
key_onto-append m (x ∷ xs) b = key_onto-append (m * 256 + x) xs b

key_onto-to_be : (w n : ℕ) → n < 256 ^ w → key_onto 0 (to_be w n) ≡ n
key_onto-to_be zero n h = omega arith
key_onto-to_be (suc w) n h =
    key_onto-append 0 (to_be w (n / 256)) (n % 256)
    ∙ omega (arith, key_onto-to_be w (n / 256) (omega arith))

pub read_bytes-append :
    (n : ℕ) (xs ys : List ℕ) → length xs ≡ n → read_bytes n (xs ++ ys) ≡ some (xs, ys)
unfolding read_bytes
read_bytes-append n xs ys h =
    let fits : leb n (length (xs ++ ys)) ≡ true = le→leb _ _ (omega (arith, length-append xs ys)) in
    rw fits (rw (take-append n xs ys h) (rw (drop-append n xs ys h) refl))

pub read_number-append :
    (w n : ℕ) (rest : List ℕ)
    → n < 256 ^ w
    → read_number w (to_le_bytes w n ++ rest) ≡ some (n, rest)
unfolding read_number to_le_bytes
read_number-append w n rest h =
    rw (read_bytes-append w (to_le w n) rest (length-to_le w n)) (rw (from_le-to_le w n h) refl)

pub read_key-append :
    (k : Pubkey) (rest : List ℕ) → k < 2 ^ 256 → read_key (key_bytes k ++ rest) ≡ some (k, rest)
unfolding read_key key_bytes
read_key-append k rest h =
    rw (read_bytes-append 32 (key_bytes k) rest (length-to_be 32 k))
      (rw (key_onto-to_be 32 k (omega (arith, h))) refl)

pub length-to_le_bytes : (w n : ℕ) → length (to_le_bytes w n) ≡ w
unfolding to_le_bytes
length-to_le_bytes = length-to_le

pub length-key_bytes : (k : Pubkey) → length (key_bytes k) ≡ 32
unfolding key_bytes
length-key_bytes = length-to_be 32

pub read_bytes_all : (n : ℕ) (xs : List ℕ) → length xs ≡ n → read_bytes n xs ≡ some (xs, [])
read_bytes_all n xs h = rw (sym (ap (read_bytes n) (append-nil xs))) (read_bytes-append n xs [] h)
