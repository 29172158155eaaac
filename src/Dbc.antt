-- ===== src/Dbc.antt =====
-- quote/dbc.rs: Meteora's dynamic bonding curve, exact input. `Fees` has the fee, `Walk` the walk
-- along the segments; the swap is here. Reading the accounts' bytes (`parse`, `apply_pool`) is not
-- modelled.
pub mod Config
pub mod Fees
pub mod Walk
pub mod Laws
use flow_trades_solana.Base.{
  ℕ, ◌+◌, ◌*◌, Bool, true, false, Option, none, some, List, [], ◌∷◌, ◌||◌, ◌&&◌, not, ltb, leb,
  ◌==◌, if◌then◌else◌, ◌>>=◌, ◌>>◌, refuse_if, checked_sub, checked_add_u64, to_u64, div_ceil,
}
use flow_trades_solana.Dbc.Config.{DbcConfig, DbcCurve, DbcQuote, fee_denominator}
use flow_trades_solana.Dbc.Fees.{fee_numerator}
use flow_trades_solana.Dbc.Walk.{quote_to_base, base_to_quote}

pub is_complete : DbcCurve → Bool
is_complete c = c.is_migrated || leb c.config.migration_quote_threshold c.quote_reserve

is_empty : List (ℕ × ℕ) → Bool
is_empty [] = true
is_empty (_ ∷ _) = false

pub quotable : DbcCurve → ℕ → Bool
quotable c current_point =
    not (is_empty c.config.curve)
    && not (c.sqrt_price == 0)
    && not (is_complete c)
    && leb c.activation_point current_point

pub fee_of : ℕ → ℕ → Option ℕ
fee_of fee_num a = to_u64 (div_ceil (a * fee_num) fee_denominator)

pub fee_on_input : DbcCurve → Bool → Bool
fee_on_input c to_base = to_base && c.config.collect_fee_mode == 0

-- (actual_in, input_fee)
input_side : DbcCurve → Bool → ℕ → ℕ → Option (ℕ × ℕ)
input_side c to_base fee_num amount_in =
    if fee_on_input c to_base
    then (do f ← fee_of fee_num amount_in; actual ← checked_sub amount_in f; some (actual, f))
    else some (amount_in, 0)

-- (out, next)
walked : DbcCurve → Bool → ℕ → Option (ℕ × ℕ)
walked c true actual_in = do
  reached ← checked_add_u64 c.quote_reserve actual_in
  refuse_if (leb c.config.migration_quote_threshold reached)
  quote_to_base c actual_in
walked c false actual_in = base_to_quote c actual_in

-- (amount_out, fee)
output_side : DbcCurve → Bool → ℕ → ℕ → ℕ → Option (ℕ × ℕ)
output_side c to_base fee_num input_fee out =
    if fee_on_input c to_base
    then some (out, input_fee)
    else (do f ← fee_of fee_num out; net ← checked_sub out f; some (net, f))

pub swap_exact_in : DbcCurve → Bool → ℕ → ℕ → Option DbcQuote
swap_exact_in c to_base amount_in current_point = do
  refuse_if (amount_in == 0 || not (quotable c current_point))
  fee_num ← fee_numerator c current_point to_base
  (actual_in, input_fee) ← input_side c to_base fee_num amount_in
  (out, next) ← walked c to_base actual_in
  (amount_out, fee) ← output_side c to_base fee_num input_fee out
  refuse_if (amount_out == 0)
  some (record { amount_out = amount_out; fee = fee; next_sqrt_price = next })
