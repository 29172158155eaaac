-- ===== src/Dlmm/Pair.antt =====
-- quote/dlmm.rs, `DlmmPair`: the fields a swap reads, the volatility state and the fee rate. Bin ids
-- and times are signed; the 16- and 32-bit fields keep every product below 64 bits.
pub mod Laws
use flow_trades_solana.Base.{
  ℕ, ◌+◌, ◌-◌, ◌*◌, ◌/◌, ◌%◌, ◌^◌, min, Bool, true, false, Option, none, some, ◌||◌, not, ltb, leb,
  ◌==◌, if◌then◌else◌, ◌>>=◌, checked_add, checked_mul, fit, u128_max,
}
use flow_trades_solana.Base.Int.{abs_diff, ℤ, pos, negsuc, ◌-ℤ◌, leb_ℤ, ltb_ℤ, pos_part, neg_part}

abbrev pub basis_point_max : ℕ
basis_point_max = 10_000

abbrev pub fee_precision : ℕ
fee_precision = 1_000_000_000

-- 10 %.
abbrev pub max_fee_rate : ℕ
max_fee_rate = 100_000_000

pub record DlmmPair : Type 0 where
  pub base_factor : ℕ
  pub filter_period : ℕ
  pub decay_period : ℕ
  pub reduction_factor : ℕ
  pub variable_fee_control : ℕ
  pub max_volatility_accumulator : ℕ
  pub base_fee_power_factor : ℕ
  pub function_type : ℕ
  pub collect_fee_mode : ℕ
  pub volatility_accumulator : ℕ
  pub volatility_reference : ℕ
  pub index_reference : ℤ
  pub last_update_timestamp : ℤ
  pub pair_type : ℕ
  pub active_id : ℤ
  pub bin_step : ℕ
  pub status : ℕ
  pub activation_type : ℕ
  pub activation_point : ℕ
  pub has_rewards : Bool

unfoldable pub is_parsed : DlmmPair → Bool
is_parsed p = ltb 0 p.bin_step

-- `a.saturating_sub(b)` on `i64`.
unfoldable pub saturating_sub_i64 : ℤ → ℤ → ℤ
saturating_sub_i64 a b = elim (a -ℤ b) [
  | pos n ↦ pos (min n (2 ^ 63 - 1))
  | negsuc n ↦ negsuc (min n (2 ^ 63 - 1))
]

unfoldable pub decayed : DlmmPair → ℕ
decayed p = p.volatility_accumulator * p.reduction_factor / basis_point_max % 2 ^ 32

unfoldable pub update_references : ℤ → DlmmPair → DlmmPair
update_references now p =
    let elapsed = saturating_sub_i64 now p.last_update_timestamp in
    if leb_ℤ (pos p.filter_period) elapsed
    then record p {
      index_reference = p.active_id;
      volatility_reference = if ltb_ℤ elapsed (pos p.decay_period) then decayed p else 0;
    }
    else p

unfoldable pub update_volatility_accumulator : DlmmPair → DlmmPair
update_volatility_accumulator p =
    let va = p.volatility_reference + abs_diff p.index_reference p.active_id * basis_point_max in
    record p { volatility_accumulator = min va p.max_volatility_accumulator % 2 ^ 32 }

unfoldable pub base_fee_rate : DlmmPair → Option ℕ
base_fee_rate p = do
  steps ← checked_mul p.base_factor p.bin_step
  tenfold ← checked_mul steps 10
  power ← fit u128_max (10 ^ p.base_fee_power_factor)
  checked_mul tenfold power

unfoldable pub variable_fee_rate : DlmmPair → Option ℕ
variable_fee_rate p = if p.variable_fee_control == 0 then some 0 else (do
  v ← checked_mul p.volatility_accumulator p.bin_step
  square ← checked_mul v v
  controlled ← checked_mul p.variable_fee_control square
  padded ← checked_add controlled 99_999_999_999
  some (padded / 100_000_000_000))

unfoldable pub total_fee_rate : DlmmPair → Option ℕ
total_fee_rate p = do
  base ← base_fee_rate p
  variable ← variable_fee_rate p
  total ← checked_add base variable
  some (min total max_fee_rate)

unfoldable pub supports_limit_orders : DlmmPair → Bool
supports_limit_orders p =
    if p.function_type == 2 then true else if p.function_type == 0 then not p.has_rewards else false

unfoldable pub fee_on_input : DlmmPair → Bool → Bool
fee_on_input p swap_for_y = not (p.collect_fee_mode == 1) || not swap_for_y

unfoldable pub is_tradable : DlmmPair → ℤ → ℕ → Bool
is_tradable p now slot =
    if not (p.status == 0)
    then false
    else if p.pair_type == 1 || p.pair_type == 2
    then leb p.activation_point (if p.activation_type == 1 then pos_part now else slot)
    else true
