-- ===== src/Math/Clmm/MultiTick.antt =====
-- quote/math.rs: `compute_clmm_output_multi_tick`, its loop as recursion on the crossings left, and
-- `compute_clmm_input_multi_tick`.
mod Tests
pub mod Laws
use flow_trades_solana.Base.{
  ℕ, zero, suc, ◌+◌, ◌-◌, ◌*◌, ◌/◌, ◌%◌, ◌^◌, ◌<◌, ◌≤◌, ◌≡◌, refl, min, Bool, true, false, ◌&&◌,
  List, [], Option, none, some, ◌||◌, ltb, leb, ◌==◌, if◌then◌else◌, ◌>>=◌, ◌>>◌, refuse_if,
  checked_mul, checked_add, checked_sub, checked_div, u64_max, get_elem?, length, arith, inl, inr,
  Option-cases, Bool-cases,
}
use flow_trades_solana.Base.Int.{ℤ}
use flow_trades_solana.Math.Clmm.{
  q64, curve_out, virtual_reserves, compute_clmm_output, compute_clmm_input,
}
use mathlib.Core.Logic.{◌⊎◌}

abbrev pub max_tick_crossings : ℕ
max_tick_crossings = 10

-- The variables of the loop.
pub record Walk : Type 0 where
  pub amount_remaining : ℕ
  pub current_sqrt : ℕ
  pub current_liq : ℕ
  pub total_output : ℕ
  pub crossings : ℕ

-- How one round of the loop ends: by its last statement, or by a `break`.
pub data Round : Type 0 where
  again : Walk → Round
  stop : Walk → Round

-- The new square-root price of a crossing.
shifted_sqrt : Bool → Walk → ℕ → ℕ → ℕ → ℕ → Option ℕ
shifted_sqrt true w reserve_in reserve_out denom input_consumed = do
  scaled ← checked_mul w.current_sqrt denom
  checked_div scaled reserve_out
shifted_sqrt false w reserve_in reserve_out denom input_consumed = do
  new_reserve_in_after ← checked_add reserve_in input_consumed
  scaled ← checked_mul w.current_sqrt new_reserve_in_after
  checked_div scaled reserve_in

-- The trade leaves the range: the `else` branch of the loop's body.
crossing : Bool → List (ℤ × ℕ) → Walk → ℕ → ℕ → ℕ → Option Round
unfolding shifted_sqrt
crossing a_to_b tick_liquidities w reserve_in reserve_out partial_output = do
  denom ← checked_sub reserve_out partial_output
  if denom == 0 then some (Round.stop w) else do
    scaled ← checked_mul reserve_in partial_output
    input_consumed ← checked_div scaled denom
    total ← checked_add w.total_output partial_output
    remaining ← checked_sub w.amount_remaining (min input_consumed w.amount_remaining)
    let paid = record w { total_output = total; amount_remaining = remaining }
    elim (get_elem? tick_liquidities w.crossings) [
      | none ↦ some (Round.stop paid)
      | some (_, liquidity) ↦
          shifted_sqrt a_to_b w reserve_in reserve_out denom input_consumed >>= λ sqrt. some (
            Round.again (record paid {
              current_liq = liquidity;
              current_sqrt = sqrt;
              crossings = w.crossings + 1;
            }))
    ]

-- The trade stays in the range: the other branch.
filled : Walk → ℕ → Option Round
filled w output = do
  total ← checked_add w.total_output output
  some (Round.again (record w { total_output = total; amount_remaining = 0 }))

-- One range, from its reserves.
in_range : Bool → List (ℤ × ℕ) → Walk → ℕ × ℕ → Option Round
in_range a_to_b tick_liquidities w (reserve_in, reserve_out) =
    if reserve_in == 0 || reserve_out == 0 then some (Round.stop w) else do
      new_reserve_in ← checked_add reserve_in w.amount_remaining
      product ← checked_mul reserve_out reserve_in
      new_reserve_out ← checked_div product new_reserve_in
      output ← checked_sub reserve_out new_reserve_out
      let boundary_threshold = reserve_out * 9 % 2 ^ 128 / 10
      if ltb output boundary_threshold || leb (length tick_liquidities) w.crossings
          then filled w output
          else crossing a_to_b tick_liquidities w reserve_in reserve_out boundary_threshold

-- The loop's body.
pub round : Bool → List (ℤ × ℕ) → Walk → Option Round
round a_to_b tick_liquidities w =
    if w.current_liq == 0 || w.current_sqrt == 0
    then some (Round.stop w)
    else virtual_reserves w.current_sqrt w.current_liq a_to_b >>= in_range a_to_b tick_liquidities w

-- What follows a round.
after : Option Round → (Walk → Option Walk) → Option Walk
after none rest = none
after (some (Round.stop w)) rest = some w
after (some (Round.again w)) rest = rest w

-- `while amount_remaining > 0 && crossings <= MAX_TICK_CROSSINGS`
abbrev goes_on : Walk → Bool
goes_on w = ltb 0 w.amount_remaining && leb w.crossings max_tick_crossings

pub walk : ℕ → Bool → List (ℤ × ℕ) → Walk → Option Walk
walk zero a_to_b ticks w = some w
walk (suc fuel) a_to_b ticks w = elim (goes_on w) [
  | false ↦ some w
  | true ↦ after (round a_to_b ticks w) (walk fuel a_to_b ticks)
]

-- Every round but the last raises `crossings`, from 0 to at most 11.
abbrev pub walk_fuel : ℕ
walk_fuel = max_tick_crossings + 2

abbrev pub start : ℕ → ℕ → ℕ → Walk
start amount_after_fee sqrt_price liquidity = record {
  amount_remaining = amount_after_fee;
  current_sqrt = sqrt_price;
  current_liq = liquidity;
  total_output = 0;
  crossings = 0;
}

pub compute_clmm_output_multi_tick : ℕ → ℕ → ℕ → ℕ → Bool → List (ℤ × ℕ) → Option ℕ
compute_clmm_output_multi_tick sqrt_price liquidity amount_in fee_bps a_to_b tick_liquidities = do
  refuse_if (sqrt_price == 0 || amount_in == 0)
  let fee = min fee_bps 10_000
  refuse_if (fee == 10_000)
  scaled ← checked_mul amount_in (10_000 - fee)
  amount_after_fee ← checked_div scaled 10_000
  refuse_if (amount_after_fee == 0)
  w ← walk walk_fuel a_to_b tick_liquidities (start amount_after_fee sqrt_price liquidity)
  refuse_if (ltb u64_max w.total_output)
  some w.total_output

pub compute_clmm_input_multi_tick : ℕ → ℕ → ℕ → ℕ → Bool → List (ℤ × ℕ) → Option ℕ
compute_clmm_input_multi_tick sqrt_price liquidity amount_out fee_bps a_to_b tick_liquidities =
    compute_clmm_input sqrt_price liquidity amount_out fee_bps a_to_b
