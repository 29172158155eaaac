-- ===== src/Clmm/Walk.antt =====
-- quote/clmm.rs: `swap_exact_in_pool_within`, the walk over the loaded ticks. The inner loop, which re-prices
-- a dynamic fee, has no bound in the source: it is given fuel, and out of fuel is `none`, as a refusal is.
mod Tests
pub mod Turn
pub mod Loop
pub mod Reach
pub mod Bounds
use flow_trades_solana.Base.{
  ℕ, zero, suc, ◌+◌, ◌-◌, ◌*◌, ◌≤◌, Bool, true, false, not, Option, none, some, List, [], ◌∷◌, ◌||◌,
  ◌&&◌, ltb, leb, ◌==◌, if◌then◌else◌, ◌>>=◌, ◌>>◌, refuse_if, checked_sub, checked_add, to_u64,
  get_elem?, u128_max,
}
use flow_trades_solana.Base.Int.{ℤ, pos, negsuc, ◌+ℤ◌, ◌-ℤ◌, neg_ℤ, leb_ℤ, ltb_ℤ, min_ℤ, max_ℤ}
use flow_trades_solana.Clmm.Course.{
  raydium_min_sqrt_price_x64, raydium_max_sqrt_price_x64, orca_max_sqrt_price_x64, Course, Position,
  Target, limit_of, not_above, course, begin,
}
use flow_trades_solana.Clmm.Price.{min_tick, max_tick}
use flow_trades_solana.Clmm.Step.{fee_denominator_ppm, Step, swap_step}
use flow_trades_solana.Clmm.Orders.{Match, match_limit_orders, fill_fusion_orders}
use flow_trades_solana.Clmm.Ticks.{TickLayout, TickData, sqrt_price_at_tick, limit_orders_at}
use flow_trades_solana.Clmm.Raydium.{RaydiumFeeExt, fee_on_input}
use flow_trades_solana.Clmm.Fees.{ClmmPool, StepFee, new_step_fee, Pricing, step, advance}

pub record WalkResult : Type 0 where
  pub amount_out : ℕ
  pub ticks_crossed : ℕ
  pub end_sqrt_price_x64 : ℕ
  pub steps : ℕ

-- `checked_add(delta as u128)`, or `checked_sub` of its absolute value; the net liquidity is above the
-- least `i128`, which has no negative.
pub add_net : ℕ → ℤ → Option ℕ
add_net liq (pos n) = checked_add liq n
add_net liq (negsuc n) = checked_sub liq (suc n)

-- A step to `bounded`; where there is no liquidity the price jumps for free.
pub advance_price : Course → Pricing → Position → Option Position
advance_price c p s =
    let jumped = record s { sqrt_p = p.bounded; steps = s.steps + 1 } in
    if s.sqrt_p == p.bounded then some s else if s.liq == 0 then some jumped else (do
      moved ← swap_step s.sqrt_p p.bounded s.liq s.remaining p.rate c.a_to_b c.on_input
      remaining ← checked_sub s.remaining moved.used
      out ← checked_add s.out moved.got
      some
          (record s { remaining = remaining; sqrt_p = moved.next; out = out; steps = s.steps + 1 }))

fill_orders : Course → (unfilled remaining price rate : ℕ) → Option Match
fill_orders c unfilled remaining price rate =
    let by_fusion : Option Match =
      (fill_fusion_orders unfilled remaining price rate c.a_to_b >>= λ (used, got).
      some (record { used = used; got = got; filled = unfilled })) in
    let matched = match_limit_orders unfilled remaining price rate c.a_to_b c.on_input in
    elim c.pool.layout [
      | TickLayout.fusion ↦ by_fusion
      | TickLayout.raydium ↦ matched
      | TickLayout.orca ↦ matched
    ]

-- With the orders filled the tick's liquidity is crossed; with some left the input must be spent.
cross_tick : Course → Target → (net : ℤ) → (orders_left : ℕ) → Position → Option Position
cross_tick c t net orders_left s =
    let below = t.tick -ℤ pos 1 in
    if orders_left == 0
    then (do
      liq ← add_net s.liq (if c.a_to_b then neg_ℤ net else net)
      some (record s {
        liq_next = liq;
        crossed = s.crossed + 1;
        tick = if c.a_to_b then below else t.tick;
      }))
    else (do
      refuse_if (not (s.remaining == 0))
      some (record s { tick = if c.a_to_b then t.tick else below }))

-- The price has reached the tick, or the edge of what is known.
pub arrive : Course → Target → (rate : ℕ) → Position → Option Position
arrive c t rate s = elim t.net [
  | none ↦ if s.remaining == 0 then some s else none
  | some net ↦ (do
    let unfilled = limit_orders_at c.ticks t.tick
    m ← fill_orders c unfilled s.remaining t.price rate
    remaining ← checked_sub s.remaining m.used
    out ← checked_add s.out m.got
    cross_tick c t net (unfilled - m.filled) (record s { remaining = remaining; out = out }))
]

-- One turn of the inner loop.
pub turn : Course → Target → Position → Option Position
turn c t s = do
  p ← step s.fee c.pool.fee_ppm t.target s.liq c.pool.tick_spacing c.pool.layout c.a_to_b
  moved ← advance_price c p s
  there ← if moved.sqrt_p == t.price then arrive c t p.rate moved else some moved
  fee ← advance p.fee p.skipped there.sqrt_p t.price t.tick there.tick c.pool.tick_spacing c.a_to_b
  some (record there { fee = fee })

abbrev pub settled : Target → Position → Bool
settled t s = s.remaining == 0 || s.sqrt_p == t.target

-- `if remaining == 0 || sqrt_p == target { break; }`, and else once more.
pub after_turn : Target → (Position → Option Position) → Option Position → Option Position
after_turn t again none = none
after_turn t again (some next) = if settled t next then some next else again next

-- The inner loop.
pub approach : ℕ → Course → Target → Position → Option Position
unfolding after_turn
approach zero c t s = none
approach (suc fuel) c t s = after_turn t (approach fuel c t) (turn c t s)

-- `ticks[idx]`, where there is one within the edge.
next_tick : Course → ℤ → Option (ℤ × ℤ)
next_tick c (negsuc n) = none
next_tick c (pos n) = get_elem? c.ticks.ticks n >>= λ (t, net).
    if (if c.a_to_b then leb_ℤ c.edge_lo t else leb_ℤ t c.edge_hi) then some (t, net) else none

-- `edge_hi.saturating_add(1)`.
edge : Course → ℤ
edge c = if c.a_to_b then c.edge_lo else min_ℤ (c.edge_hi +ℤ pos 1) (pos (2_147_483_647))

pub choose : Course → Position → Option Target
choose c s =
    let ahead = next_tick c s.idx in
    let wanted : ℤ = elim ahead [ none ↦ edge c | some (t, net) ↦ t ] in
    let tick = max_ℤ min_tick (min_ℤ wanted max_tick) in
    sqrt_price_at_tick c.pool.layout tick >>= λ price. some (record {
      tick = tick;
      price = price;
      target =
          if (c.a_to_b && ltb price c.limit) || (not c.a_to_b && ltb c.limit price)
          then c.limit
          else price;
      net = elim ahead [ none ↦ none | some (t, net) ↦ some net ];
    })

-- The program's bounds on a step.
pub allowed : Course → Target → Position → Bool
allowed c t s =
    if c.a_to_b
    then leb_ℤ t.tick s.tick && leb t.price s.sqrt_p
    else ltb_ℤ s.tick t.tick && leb s.sqrt_p t.price

toward : Bool → ℤ → ℤ
toward a_to_b i = if a_to_b then i -ℤ pos 1 else i +ℤ pos 1

-- The target of a round, once the program's bounds on it hold.
pub aim : Course → Position → Option Target
aim c s = choose c s >>= λ t. if allowed c t s then some t else none

-- The end of a round: at the edge of what is known the walk is over.
pub after_round : Course → Target → (Position → Option Position) → Option Position → Option Position
after_round c t again none = none
after_round c t again (some reached) = elim t.net [
  | none ↦ some (record reached { liq = reached.liq_next })
  | some net ↦ again (record reached { liq = reached.liq_next; idx = toward c.a_to_b reached.idx })
]

pub round : ℕ → Course → Position → (Position → Option Position) → Option Target → Option Position
unfolding after_round
round fuel c s again none = none
round fuel c s again (some t) =
    after_round c t again (approach fuel c t (record s { liq_next = s.liq }))

-- The outer loop, `rounds` of its 512 left; `fuel` is for each inner one.
pub walk : (rounds fuel : ℕ) → Course → Position → Option Position
unfolding round
walk zero fuel c s = some s
walk (suc rounds) fuel c s =
    let on = round fuel c s (walk rounds fuel c) (aim c s) in
    if s.remaining == 0 || s.sqrt_p == c.limit then some s else on

abbrev pub most_rounds : ℕ
most_rounds = 512

refused : ClmmPool → ℕ → Bool
refused pool amount_in =
    amount_in == 0
    || pool.sqrt_price_x64 == 0
    || leb fee_denominator_ppm pool.fee_ppm
    || pool.tick_spacing == 0

pub swap_exact_in_pool_within :
    (fuel : ℕ) → ClmmPool → TickData → Bool → (amount_in : ℕ) → Option ℤ → Option WalkResult
swap_exact_in_pool_within fuel pool ticks a_to_b amount_in bound =
    if refused pool amount_in then none else (do
      fee ← new_step_fee pool
      s ←
          walk most_rounds fuel (course pool ticks a_to_b bound)
            (begin pool ticks a_to_b amount_in fee)
      refuse_if (not (s.remaining == 0))
      amount_out ← to_u64 s.out
      some (record {
        amount_out = amount_out;
        ticks_crossed = s.crossed;
        end_sqrt_price_x64 = s.sqrt_p;
        steps = s.steps;
      }))

pub swap_exact_in_pool :
    (fuel : ℕ) → ClmmPool → TickData → Bool → (amount_in : ℕ) → Option WalkResult
swap_exact_in_pool fuel pool ticks a_to_b amount_in =
    swap_exact_in_pool_within fuel pool ticks a_to_b amount_in none
