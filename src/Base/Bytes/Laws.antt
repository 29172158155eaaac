-- ===== src/Base/Bytes/Laws.antt =====
-- Theorems on the reading of bytes: what is written little-endian is read back.
use Prim.Native.Nat.{ℕ, zero, suc, ◌+◌, ◌-◌, ◌/◌, ◌%◌, ◌^◌, ◌<◌}
use mathlib.Core.List.{List, [], ◌∷◌, ◌++◌}
use mathlib.Core.Path.{◌≡◌, refl, ap, ◌∙◌}
use mathlib.Core.Option.{some}
use mathlib.Core.Bool.{true, ◌&&◌}
use native.Mathlib.Omega.{arith}
use flow_trades_solana.Base.Tests.{leb}
use flow_trades_solana.Base.Lists.{length}
use flow_trades_solana.Base.Bytes.{take, drop, from_le, number_at}

-- The number in `width` bytes, low end first.
abbrev pub to_le : (width : ℕ) → ℕ → List ℕ
to_le zero n = []
to_le (suc w) n = n % 256 ∷ to_le w (n / 256)

pub length-append {ℓ} : {A : Type ℓ} (xs ys : List A) → length (xs ++ ys) ≡ length xs + length ys
length-append [] ys = omega arith
length-append (x ∷ xs) ys = omega (arith, length-append xs ys)

pub drop-append : (n : ℕ) (xs ys : List ℕ) → length xs ≡ n → drop n (xs ++ ys) ≡ ys
drop-append zero [] [] h = refl
drop-append zero [] (y ∷ ys) h = refl
drop-append zero (x ∷ xs) ys h = ground (arith, h)
drop-append (suc n) [] ys h = ground (arith, h)
drop-append (suc n) (x ∷ xs) ys h = drop-append n xs ys (omega arith)

pub take-append : (n : ℕ) (xs ys : List ℕ) → length xs ≡ n → take n (xs ++ ys) ≡ xs
take-append zero [] [] h = refl
take-append zero [] (y ∷ ys) h = refl
take-append zero (x ∷ xs) ys h = ground (arith, h)
take-append (suc n) [] ys h = ground (arith, h)
take-append (suc n) (x ∷ xs) ys h = ap (λ t. x ∷ t) (take-append n xs ys (omega arith))

from-to_le : (n : ℕ) → n < 2 ^ 64 → from_le (to_le 8 n) ≡ n
from-to_le n h = omega arith

number_at_split :
    (a : ℕ) (before xs after : List ℕ)
    → length before ≡ a
    → length xs ≡ 8
    → number_at (before ++ (xs ++ after)) a 8 ≡ some (from_le xs)
number_at_split a before xs after h hx =
    let whole = length-append before (xs ++ after) in
    let tail = length-append xs after in
    let eight : a + 8 - a ≡ 8 = omega arith in
    let inside : (leb a (a + 8) && leb (a + 8) (length (before ++ (xs ++ after)))) ≡ true =
      ground (arith, whole, tail) in
    rw inside
      (rw eight (rw (drop-append a before (xs ++ after) h) (rw (take-append 8 xs after hx) refl)))

-- Eight bytes written after `a` others are read back there.
pub number_at_lem :
    (a : ℕ) (before after : List ℕ) (n : ℕ)
    → length before ≡ a
    → n < 2 ^ 64
    → number_at (before ++ (to_le 8 n ++ after)) a 8 ≡ some n
number_at_lem a before after n h small =
    number_at_split a before (to_le 8 n) after h refl ∙ ap some (from-to_le n small)
