-- ===== src/Fetcher/Reading.antt =====
-- pool/fetcher.rs: how the parsers read an account. A parser gives a state, refuses the account with an error, or panics
-- on a slice that is out of range; the texts of the errors are left out.
use flow_trades_solana.Base.{
  arith, ℕ, ◌+◌, ◌-◌, ◌^◌, ◌==◌, ◌||◌, not, [], ◌∷◌, Bool, true, false, List, leb, ltb,
  if◌then◌else◌, ◌≡◌, refl, length,
}
use flow_trades_solana.Base.Bytes.{Pubkey, take, drop, from_le, key_of, signed}
use flow_trades_solana.Base.Int.{ℤ, pos, negsuc}
use flow_trades_solana.Execution.{Result, ok, err}

pub data Failure : Type 0 where
  refused panics : Failure

abbrev pub Parsed {ℓ} : Type ℓ → Type ℓ
Parsed A = Result Failure A

infixl 5 ◌>>=◌ ◌>>◌
abbrev pub ◌>>=◌ {ℓ κ} : {A : Type ℓ} {B : Type κ} → Parsed A → (A → Parsed B) → Parsed B
ok a >>= f = f a
err e >>= f = err e

abbrev pub ◌>>◌ {ℓ} : {B : Type ℓ} → Parsed (Unit {0}) → Parsed B → Parsed B
m >> k = m >>= λ _. k

-- An early return of an error.
abbrev pub reject_if : Bool → Parsed (Unit {0})
reject_if true = err refused
reject_if false = ok tt

abbrev pub read_pubkey : List ℕ → (offset : ℕ) → Parsed Pubkey
read_pubkey d o = if ltb (length d) (o + 32) then err refused else ok (key_of (take 32 (drop o d)))

-- `from_le_bytes(d[o..o + width])`.
abbrev pub number : List ℕ → (o width : ℕ) → Parsed ℕ
number d o w = if leb (o + w) (length d) then ok (from_le (take w (drop o d))) else err panics

-- The same of an `i32`.
abbrev pub number_i32 : List ℕ → (o : ℕ) → Parsed ℤ
number_i32 d o =
    if leb (o + 4) (length d) then ok (signed 32 (from_le (take 4 (drop o d)))) else err panics

-- `d.get(o..o + width)`, or a default where the account is shorter.
abbrev pub number_or : (default : ℕ) → List ℕ → (o width : ℕ) → ℕ
number_or n d o w = if leb (o + w) (length d) then from_le (take w (drop o d)) else n

-- What became of an account.
pub data Outcome : Type 0 where
  accepted rejected panicked : Outcome

abbrev pub outcome {ℓ} : {A : Type ℓ} → Parsed A → Outcome
outcome (ok a) = accepted
outcome (err refused) = rejected
outcome (err panics) = panicked

abbrev pub number_i32_or : (default : ℤ) → List ℕ → (o : ℕ) → ℤ
number_i32_or n d o = if leb (o + 4) (length d) then signed 32 (from_le (take 4 (drop o d))) else n

-- `d[o..o + width]`.
abbrev pub bytes_at : List ℕ → (o width : ℕ) → Parsed (List ℕ)
bytes_at d o w = if leb (o + w) (length d) then ok (take w (drop o d)) else err panics

-- `Pubkey::try_from(&d[o..o + 32])`.
abbrev pub key_slice : List ℕ → (o : ℕ) → Parsed Pubkey
key_slice d o = bytes_at d o 32 >>= λ b. ok (key_of b)

-- `.iter().any(|b| *b != 0)`.
pub any_nonzero : List ℕ → Bool
any_nonzero [] = false
any_nonzero (b ∷ bs) = not (b == 0) || any_nonzero bs

-- `unwrap_or_default` of a parser that returns an option.
abbrev pub or_default {ℓ} : {A : Type ℓ} → A → Parsed A → Parsed A
or_default a (ok b) = ok b
or_default a (err refused) = ok a
or_default a (err panics) = err panics

-- The bits of a signed number, as an unsigned one.
abbrev pub bits : (width : ℕ) → ℤ → ℕ
bits w (pos n) = n
bits w (negsuc n) = 2 ^ w - 1 - n

abbrev pub expected : Bool → Outcome
expected true = accepted
expected false = rejected

pub accepted_value {ℓ} : {A : Type ℓ} (r : Parsed A) → outcome r ≡ accepted → (a : A) × (r ≡ ok a)
accepted_value (ok a) h = (a, refl)
accepted_value (err refused) h = absurd (ground arith)
accepted_value (err panics) h = absurd (ground arith)

pub defaulted {ℓ} :
    {A : Type ℓ} (d : A) (r : Parsed A) (b : Bool)
    → outcome r ≡ expected b
    → (a : A) × (or_default d r ≡ ok a)
defaulted d (ok a) b h = (a, refl)
defaulted d (err refused) b h = (d, refl)
defaulted d (err panics) true h = absurd (ground arith)
defaulted d (err panics) false h = absurd (ground arith)
