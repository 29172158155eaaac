-- ===== src/Dlmm/Price.antt =====
-- quote/dlmm.rs, `price_from_id` and `pow_q64`: the Q64.64 price of a bin.
use flow_trades_solana.Base.{
  ℕ, zero, suc, ◌+◌, ◌*◌, ◌/◌, ◌%◌, ◌^◌, Bool, true, false, not, Option, some, leb, ◌==◌,
  if◌then◌else◌, ◌>>=◌, ◌>>◌, refuse_if, checked_add, checked_mul, checked_div, u128_max,
}
use flow_trades_solana.Base.Int.{ℤ, pos, negsuc, pos_part, neg_part}
use flow_trades_solana.Dlmm.Pair.{basis_point_max}

abbrev pub q64 : ℕ
q64 = 2 ^ 64

mul_q64 : ℕ → ℕ → Option ℕ
mul_q64 a b = checked_mul a b >>= λ p. some (p / q64)

-- `bits` of the exponent's bits are left; `squared` is the power of the lowest of them.
pow_loop : ℕ → (exp result squared : ℕ) → Option ℕ
unfolding mul_q64
pow_loop zero exp result squared = some result
pow_loop (suc bits) exp result squared = do
  next ← if exp % 2 == 1 then mul_q64 result squared else some result
  elim bits [ zero ↦ some next | suc _ ↦ mul_q64 squared squared >>= pow_loop bits (exp / 2) next ]

-- (inverted base, whether the result is inverted at the end)
inverted : ℕ → Bool → Option (ℕ × Bool)
inverted base invert =
    if leb q64 base
    then (checked_div u128_max base >>= λ b. some (b, not invert))
    else some (base, invert)

is_negative : ℤ → Bool
is_negative (pos _) = false
is_negative (negsuc _) = true

pub pow_q64 : ℕ → ℤ → Option ℕ
pow_q64 base e =
    let exp = pos_part e + neg_part e in
    if exp == 0 then some q64 else (do
      refuse_if (leb 0x80000 exp)
      (squared, invert) ← inverted base (is_negative e)
      result ← pow_loop 19 exp q64 squared
      refuse_if (result == 0)
      if invert then checked_div u128_max result else some result)

pub price_from_id : ℤ → ℕ → Option ℕ
price_from_id id bin_step = do
  base ← checked_add q64 (bin_step * 2 ^ 64 / basis_point_max)
  pow_q64 base id
