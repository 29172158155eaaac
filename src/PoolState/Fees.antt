-- ===== src/PoolState/Fees.antt =====
-- pool/types.rs: the fee schedule of the token-swap forks, and the flags of a pump.fun AMM pool.
use flow_trades_solana.Base.{
  ℕ, ◌+◌, ◌*◌, ◌/◌, ◌%◌, ◌^◌, max, Bool, ◌&&◌, ◌||◌, Option, some, List, ltb, ◌==◌, if◌then◌else◌,
  ◌>>=◌, ◌>>◌, refuse_if, length, to_u64,
}
use flow_trades_solana.Base.Bytes.{number_at}

pub record SplSwapFees : Type 0 where
  pub trade_num : ℕ
  pub trade_den : ℕ
  pub owner_num : ℕ
  pub owner_den : ℕ
  pub curve_type : ℕ

-- `SplSwapFees::default`.
abbrev pub no_swap_fees : SplSwapFees
no_swap_fees = record { trade_num = 0; trade_den = 0; owner_num = 0; owner_den = 0; curve_type = 0 }

pub parse_swap_fees : List ℕ → Option SplSwapFees
parse_swap_fees d = do
  refuse_if (ltb (length d) 292)
  trade_num ← number_at d 227 8
  trade_den ← number_at d 235 8
  owner_num ← number_at d 243 8
  owner_den ← number_at d 251 8
  curve_type ← number_at d 291 1
  some (record {
    trade_num = trade_num;
    trade_den = trade_den;
    owner_num = owner_num;
    owner_den = owner_den;
    curve_type = curve_type;
  })

pub fee : (amount num den : ℕ) → Option ℕ
fee amount num den =
    if num == 0 || den == 0 then some 0 else (to_u64 (amount * num / den) >>= λ f. some (max f 1))

-- The sum is of two `u64`, which wraps in a release build.
pub total_fee : SplSwapFees → (amount_in : ℕ) → Option ℕ
total_fee s amount_in = do
  refuse_if (s.trade_den == 0 && s.owner_den == 0)
  trade ← fee amount_in s.trade_num s.trade_den
  owner ← fee amount_in s.owner_num s.owner_den
  some ((trade + owner) % 2 ^ 64)

pub record PammFlags : Type 0 where
  pub non_canonical : Bool
  pub mayhem : Bool
  pub cashback : Bool
  pub creator_fee_bps : ℕ
