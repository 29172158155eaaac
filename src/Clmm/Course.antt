-- ===== src/Clmm/Course.antt =====
-- quote/clmm.rs: what `swap_exact_in_pool_within` reads, its variables, and where it starts.
use flow_trades_solana.Base.{
  ℕ, suc, ◌+◌, ◌-◌, Bool, Option, none, some, List, [], ◌∷◌, if◌then◌else◌,
}
use flow_trades_solana.Base.Int.{ℤ, pos, ◌-ℤ◌, leb_ℤ, min_ℤ, max_ℤ}
use flow_trades_solana.Clmm.Ticks.{TickLayout, TickData}
use flow_trades_solana.Clmm.Raydium.{fee_on_input}
use flow_trades_solana.Clmm.Fees.{ClmmPool, StepFee}

abbrev pub raydium_min_sqrt_price_x64 : ℕ
raydium_min_sqrt_price_x64 = 4_295_048_016

abbrev pub raydium_max_sqrt_price_x64 : ℕ
raydium_max_sqrt_price_x64 = 79_226_673_521_066_979_257_578_248_091

abbrev pub orca_max_sqrt_price_x64 : ℕ
orca_max_sqrt_price_x64 = 79_226_673_515_401_279_992_447_579_055

-- What the walk reads and does not change.
pub record Course : Type 0 where
  pub pool : ClmmPool
  pub ticks : TickData
  pub a_to_b : Bool
  pub on_input : Bool
  pub limit : ℕ
  pub edge_lo : ℤ
  pub edge_hi : ℤ

-- The variables of the loops.
pub record Position : Type 0 where
  pub remaining : ℕ
  pub sqrt_p : ℕ
  pub tick : ℤ
  pub liq : ℕ
  pub liq_next : ℕ
  pub out : ℕ
  pub crossed : ℕ
  pub steps : ℕ
  pub fee : StepFee
  pub idx : ℤ

-- The tick ahead, its price, where the walk must stop, and the liquidity that it adds, where it is one.
pub record Target : Type 0 where
  pub tick : ℤ
  pub price : ℕ
  pub target : ℕ
  pub net : Option ℤ

unfoldable pub limit_of : TickLayout → Bool → ℕ
limit_of TickLayout.raydium a_to_b =
    if a_to_b then raydium_min_sqrt_price_x64 + 1 else raydium_max_sqrt_price_x64 - 1
limit_of TickLayout.orca a_to_b =
    if a_to_b then raydium_min_sqrt_price_x64 else orca_max_sqrt_price_x64
limit_of TickLayout.fusion a_to_b =
    if a_to_b then raydium_min_sqrt_price_x64 else orca_max_sqrt_price_x64

-- `partition_point(|(t, _)| *t <= tick)`, on ascending ticks.
unfoldable pub not_above : ℤ → List (ℤ × ℤ) → ℕ
not_above tick [] = 0
not_above tick ((t, net) ∷ rest) = if leb_ℤ t tick then suc (not_above tick rest) else 0

unfoldable pub course : ClmmPool → TickData → Bool → Option ℤ → Course
course pool ticks a_to_b bound = record {
  pool = pool;
  ticks = ticks;
  a_to_b = a_to_b;
  on_input = fee_on_input pool.fee_ext a_to_b;
  limit = limit_of pool.layout a_to_b;
  edge_lo = elim bound [
    | none ↦ ticks.covered_lo
    | some b ↦ if a_to_b then max_ℤ ticks.covered_lo b else ticks.covered_lo
  ];
  edge_hi = elim bound [
    | none ↦ ticks.covered_hi
    | some b ↦ if a_to_b then ticks.covered_hi else min_ℤ ticks.covered_hi b
  ];
}

unfoldable pub begin : ClmmPool → TickData → Bool → ℕ → StepFee → Position
begin pool ticks a_to_b amount_in fee =
    let first = pos (not_above pool.tick_current ticks.ticks) in
    record {
      remaining = amount_in;
      sqrt_p = pool.sqrt_price_x64;
      tick = pool.tick_current;
      liq = pool.liquidity;
      liq_next = pool.liquidity;
      out = 0;
      crossed = 0;
      steps = 0;
      fee = fee;
      idx = if a_to_b then first -ℤ pos 1 else first;
    }
