-- ===== src/Clmm/Ticks.antt =====
-- quote/clmm.rs: the tick-array layouts, and the loaded ticks around a pool's price.
use flow_trades_solana.Base.{
  ℕ, zero, suc, ◌*◌, max, Bool, Option, none, some, List, [], ◌∷◌, reverse, ◌==◌, if◌then◌else◌,
  length, get_elem?, ◌>>=◌,
}
use flow_trades_solana.Base.Int.{ℤ, pos, ◌+ℤ◌, ◌-ℤ◌, ◌*ℤ◌, div_euclid, leb_ℤ, eq_ℤ}
use flow_trades_solana.Clmm.Price.{raydium_sqrt_price_at_tick, orca_sqrt_price_at_tick}

pub data TickLayout : Type 0 where
  raydium : TickLayout
  orca : TickLayout
  fusion : TickLayout

abbrev pub ticks_per_array : TickLayout → ℕ
ticks_per_array raydium = 60
ticks_per_array orca = 88
ticks_per_array fusion = 88

pub array_start : TickLayout → (tick : ℤ) → (tick_spacing : ℕ) → ℤ
array_start layout tick tick_spacing =
    let span = ticks_per_array layout * max tick_spacing 1 in div_euclid tick span *ℤ span

unfoldable pub sqrt_price_at_tick : TickLayout → ℤ → Option ℕ
sqrt_price_at_tick raydium tick = raydium_sqrt_price_at_tick tick
sqrt_price_at_tick orca tick = some (orca_sqrt_price_at_tick tick)
sqrt_price_at_tick fusion tick = some (orca_sqrt_price_at_tick tick)

-- The ticks and the orders ascend by tick; the extension account and the adaptive fee are kept beside.
pub record TickData : Type 0 where
  pub ticks : List (ℤ × ℤ)
  pub covered_lo : ℤ
  pub covered_hi : ℤ
  pub initialized_arrays : List ℤ
  pub limit_orders : List (ℤ × ℕ)

find_order : ℤ → List (ℤ × ℕ) → ℕ
find_order tick [] = 0
find_order tick ((t, amount) ∷ rest) = if eq_ℤ t tick then amount else find_order tick rest

-- A binary search by the tick: the amount beside it, or zero.
unfoldable pub limit_orders_at : TickData → ℤ → ℕ
unfolding find_order
limit_orders_at loaded tick = find_order tick loaded.limit_orders

keep : (ℤ → Bool) → List ℤ → List ℤ
keep holds [] = []
keep holds (x ∷ xs) = if holds x then x ∷ keep holds xs else keep holds xs

truncate : ℕ → List ℤ → List ℤ
truncate zero xs = []
truncate (suc n) [] = []
truncate (suc n) (x ∷ xs) = x ∷ truncate n xs

pub arrays_for_swap :
    TickData → TickLayout → (tick_current : ℤ) → (tick_spacing : ℕ) → Bool → (most : ℕ) → List ℤ
unfolding keep truncate
arrays_for_swap loaded layout tick_current tick_spacing a_to_b most =
    let cur = array_start layout tick_current tick_spacing in
    truncate most (
      if a_to_b
      then keep (λ s. leb_ℤ s cur) (reverse loaded.initialized_arrays)
      else keep (λ s. leb_ℤ cur s) loaded.initialized_arrays)

-- The farthest tick that the swap's arrays cover; three of them in Raydium's layout.
third_bound : Bool → ℕ → List ℤ → Option ℤ
third_bound a_to_b span starts =
    if length starts == 3
    then (get_elem? starts 2 >>= λ s. some (if a_to_b then s else s +ℤ pos span -ℤ pos 1))
    else none

pub swap_tick_bound :
    TickData → TickLayout → (tick_current : ℤ) → (tick_spacing : ℕ) → Bool → Option ℤ
unfolding third_bound
swap_tick_bound loaded layout tick_current tick_spacing a_to_b =
    let span = ticks_per_array layout * max tick_spacing 1 in
    let ahead = if a_to_b then tick_current else tick_current +ℤ pos tick_spacing in
    let first = array_start layout ahead tick_spacing in
    let cur = array_start layout tick_current tick_spacing in
    elim layout [
      | raydium ↦
          third_bound a_to_b span
            (arrays_for_swap loaded raydium tick_current tick_spacing a_to_b 3)
      | orca ↦ some (if a_to_b then first -ℤ pos (2 * span) else first +ℤ pos (3 * span) -ℤ pos 1)
      | fusion ↦ some (if a_to_b then cur -ℤ pos span else cur +ℤ pos (2 * span) -ℤ pos 1)
    ]
