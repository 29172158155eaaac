-- ===== src/Clmm/Walk/Bounds.antt =====
-- quote/clmm.rs: theorems on where a walk with the static fee goes.
use flow_trades_solana.Base.{
  ℕ, zero, suc, ◌≤◌, ◌<◌, ◌≡◌, refl, sym, ◌∙◌, Bool, Option, none, some, ◌||◌, ◌==◌, arith, inl,
  inr, Option-cases, Bool-cases, u128_max, u64_max,
}
use flow_trades_solana.Base.Int.{ℤ, max_ℤ, min_ℤ}
use flow_trades_solana.Clmm.Price.{min_tick, max_tick}
use flow_trades_solana.Clmm.Step.{fee_denominator_ppm}
use flow_trades_solana.Clmm.Ticks.{TickLayout, TickData, sqrt_price_at_tick}
use flow_trades_solana.Clmm.Fees.{ClmmPool, StepFee}
use flow_trades_solana.Clmm.Fees.Laws.{new_step_fee_static}
use flow_trades_solana.Clmm.Walk.Loop.{approach_static, swap_static_fuel}
use flow_trades_solana.Clmm.Course.{Course, Position, Target, course, begin, limit_of}
use flow_trades_solana.Clmm.Walk.{
  WalkResult, turn, aim, after_round, round, walk, most_rounds, refused, toward, next_tick, edge,
  swap_exact_in_pool_within, choose, allowed,
}
use flow_trades_solana.Clmm.Walk.Reach.{
  Onward, Sound, Went, Onward_trans, Onward_refl, Aimed, turn_to,
}

-- A target that the program's bounds let through can be walked to.
aim-Aimed :
    (c : Course) (s : Position) {t : Target}
    → c.limit ≤ u128_max
    → Sound c s
    → aim c s ≡ some t
    → Aimed c t s
unfolding aim choose allowed
aim-Aimed c s {t = t} lb w h =
    let ahead = next_tick c s.idx in
    let wanted : ℤ = elim ahead [ none ↦ edge c | some (i, net) ↦ i ] in
    let tick = max_ℤ min_tick (min_ℤ wanted max_tick) in
    elim (Option-cases (sqrt_price_at_tick c.pool.layout tick)) [
      | inl e ↦ ground arith
      | inr (price, e) ↦ ground (arith, w.within, w.price)
    ]

after_round_to :
    (c : Course) (t : Target) (n : ℕ) (f : Position → Option Position) (s x : Position)
    {r : Position}
    → ((y : Position) → Sound c y → f y ≡ some r → Went c n y r)
    → Went c 1 s x
    → Sound c x
    → after_round c t f (some x) ≡ some r
    → Went c (suc n) s r
unfolding after_round
after_round_to c t n f s x {r = r} k a w h = elim (Option-cases t.net) [
  | inl e ↦ ground (arith, a)
  | inr (net, e) ↦
      let y = record x { liq = x.liq_next; idx = toward c.a_to_b x.idx } in
      let sound : Sound c y = record {
        within = w.within;
        price = w.price;
        liquidity = w.liquidity_next;
        liquidity_next = w.liquidity_next;
        input = w.input;
        static = w.static;
      } in
      let h' : f y ≡ some r = sym (rw e refl) ∙ h in
      let b = k y sound h' in
      ground (arith, a, Onward_trans c.a_to_b s.sqrt_p x.sqrt_p r.sqrt_p a.onward b.onward, b)
]

walk_to :
    (rounds : ℕ) (c : Course) (s : Position) {r : Position}
    → c.limit ≤ u128_max
    → c.pool.fee_ppm < fee_denominator_ppm
    → Sound c s
    → walk rounds 1 c s ≡ some r
    → Went c rounds s r
unfolding walk round
walk_to zero c s {r = r} lb hf w h = ground (arith, w.within, Onward_refl c.a_to_b s.sqrt_p)
walk_to (suc rounds) c s {r = r} lb hf w h =
    let s' = record s { liq_next = s.liq } in
    let sound : Sound c s' = record {
      within = w.within;
      price = w.price;
      liquidity = w.liquidity;
      liquidity_next = w.liquidity;
      input = w.input;
      static = w.static;
    } in
    let on = walk rounds 1 c in
    elim (Bool-cases (s.remaining == 0 || s.sqrt_p == c.limit)) [
      | inl e ↦ ground (arith, w.within, Onward_refl c.a_to_b s.sqrt_p)
      | inr e ↦ elim (Option-cases (aim c s)) [
        | inl e1 ↦ ground arith
        | inr (t, e1) ↦
            let a = aim-Aimed c s lb w e1 in
            let a' : Aimed c t s' = record {
              ahead = a.ahead;
              inside = a.inside;
              small = a.small;
            } in
            let one = approach_static 0 c t s' w.static in
            elim (Option-cases (turn c t s')) [
              | inl e2 ↦ ground (arith, one)
              | inr (x, e2) ↦
                  let (went, there) = turn_to c t s' hf sound a' e2 in
                  let went' : Went c 1 s x = record {
                    onward = went.onward;
                    within = went.within;
                    spent = went.spent;
                    steps = went.steps;
                    crossed = went.crossed;
                  } in
                  let ro : round 1 c s on (some t) ≡ after_round c t on (some x) =
                    rw one (rw e2 refl) in
                  let rest : after_round c t on (some x) ≡ some r =
                    sym (rw e (rw e1 (rw ro refl))) ∙ h in
                  after_round_to c t rounds on s x (λ y v k. walk_to rounds c y lb hf v k) went'
                    there rest
            ]
      ]
    ]

limit_of-le : (layout : TickLayout) (d : Bool) → limit_of layout d ≤ u128_max
unfolding limit_of
limit_of-le TickLayout.raydium d = ground arith
limit_of-le TickLayout.orca d = ground arith
limit_of-le TickLayout.fusion d = ground arith

-- In a pool with neither of the fees that follow the price, on machine integers and from a price that has not
-- passed the program's limit, an answered swap ends between its starting price and that limit, in the
-- direction of the swap, after at most 512 steps and 512 crossings, with an output of 64 bits.
pub swap_static_bounds :
    (n : ℕ) (pool : ClmmPool) (ticks : TickData) (a_to_b : Bool) (amount_in : ℕ) (bound : Option ℤ)
    {w : WalkResult}
    → pool.fee_ext.dynamic_fee ≡ none
    → pool.adaptive_fee ≡ none
    → pool.sqrt_price_x64 ≤ u128_max
    → pool.liquidity ≤ u128_max
    → amount_in ≤ u64_max
    → Onward a_to_b pool.sqrt_price_x64 (limit_of pool.layout a_to_b)
    → swap_exact_in_pool_within (suc n) pool ticks a_to_b amount_in bound ≡ some w
    → Onward a_to_b pool.sqrt_price_x64 w.end_sqrt_price_x64
      × Onward a_to_b w.end_sqrt_price_x64 (limit_of pool.layout a_to_b)
      × w.steps ≤ most_rounds
      × w.ticks_crossed ≤ most_rounds
      × w.amount_out ≤ u64_max
unfolding swap_exact_in_pool_within begin course refused
swap_static_bounds n pool ticks a_to_b amount_in bound {w = w} d a pb lb ab on h =
    let same = swap_static_fuel n pool ticks a_to_b amount_in bound d a in
    let h1 : swap_exact_in_pool_within 1 pool ticks a_to_b amount_in bound ≡ some w =
      sym same ∙ h in
    let fee = new_step_fee_static pool d a in
    let c = course pool ticks a_to_b bound in
    let s = begin pool ticks a_to_b amount_in StepFee.static in
    let sound : Sound c s = record {
      within = on;
      price = pb;
      liquidity = lb;
      liquidity_next = lb;
      input = omega arith;
      static = refl;
    } in
    let small : c.limit ≤ u128_max = limit_of-le pool.layout a_to_b in
    elim (Option-cases (walk most_rounds 1 c s)) [
      | inl e ↦ ground (arith, fee)
      | inr (r, e) ↦
          let hf : pool.fee_ppm < fee_denominator_ppm = ground arith in
          let went = walk_to most_rounds c s small hf sound e in
          ground (arith, fee, went.onward, went.within, went.steps, went.crossed)
    ]
