-- ===== src/Clmm/Walk/Turn.antt =====
-- quote/clmm.rs: theorems on one turn of the inner loop, with the static fee.
use flow_trades_solana.Base.{
  ℕ, ◌≤◌, ◌≡◌, subst, true, some, if◌then◌else◌, arith, inl, inr, ◌⊎◌, Option-cases,
}
use flow_trades_solana.Base.Int.{neg_ℤ}
use flow_trades_solana.Clmm.Step.{swap_step}
use flow_trades_solana.Clmm.Step.Laws.{swap_step_short}
use flow_trades_solana.Clmm.Ticks.{limit_orders_at}
use flow_trades_solana.Clmm.Fees.{StepFee, Pricing}
use flow_trades_solana.Clmm.Fees.Laws.{step_static, advance_static}
use flow_trades_solana.Clmm.Course.{Course, Position, Target}
use flow_trades_solana.Clmm.Walk.{
  add_net, advance_price, fill_orders, cross_tick, arrive, turn, settled,
}

-- An arrival only spends input.
arrive_stays :
    (c : Course) (t : Target) (rate : ℕ) (s : Position) {r : Position}
    → arrive c t rate s ≡ some r
    → (r.sqrt_p ≡ s.sqrt_p) × (r.remaining ≤ s.remaining) × (r.fee ≡ s.fee)
unfolding arrive cross_tick
arrive_stays c t rate s h = elim (Option-cases t.net) [
  | inl e ↦ ground arith
  | inr (net, e) ↦
      let unfilled = limit_orders_at c.ticks t.tick in
      elim (Option-cases (fill_orders c unfilled s.remaining t.price rate)) [
        | inl e1 ↦ ground arith
        | inr (m, e1) ↦ elim (Option-cases (add_net s.liq (if c.a_to_b then neg_ℤ net else net))) [
          | inl e2 ↦ ground arith
          | inr (l, e2) ↦ ground arith
        ]
      ]
]

-- A step that misses its bound has spent the input.
advance_price_short :
    (c : Course) (p : Pricing) (s : Position) {r : Position}
    → advance_price c p s ≡ some r
    → ((r.sqrt_p ≡ p.bounded) ⊎ (r.remaining ≡ 0)) × (r.fee ≡ s.fee)
unfolding advance_price
advance_price_short c p s h =
    elim (Option-cases
      (swap_step s.sqrt_p p.bounded s.liq s.remaining p.rate c.a_to_b c.on_input)) [
        | inl e ↦ ground arith
        | inr (m, e) ↦
            let short =
              swap_step_short s.sqrt_p p.bounded s.liq s.remaining p.rate c.a_to_b c.on_input e in
            ground (arith, short)
      ]

-- With the static fee one turn settles the target.
pub turn_static :
    (c : Course) (t : Target) (s : Position) {r : Position}
    → s.fee ≡ StepFee.static
    → turn c t s ≡ some r
    → (settled t r ≡ true) × (r.fee ≡ StepFee.static)
unfolding turn
turn_static c t s {r = r} e h =
    let p : Pricing = record {
      fee = StepFee.static;
      rate = c.pool.fee_ppm;
      bounded = t.target;
      skipped = true;
    } in
    let priced =
      step_static c.pool.fee_ppm t.target s.liq c.pool.tick_spacing c.pool.layout c.a_to_b in
    let h' : turn c t (record s { fee = StepFee.static }) ≡ some r =
      subst (λ f. turn c t (record s { fee = f }) ≡ some r) e h in
    elim (Option-cases (advance_price c p (record s { fee = StepFee.static }))) [
      | inl e1 ↦ ground (arith, priced)
      | inr (m, e1) ↦
          let short = advance_price_short c p (record s { fee = StepFee.static }) e1 in
          let same =
            advance_static p.skipped m.sqrt_p t.price t.tick m.tick c.pool.tick_spacing c.a_to_b in
          elim (Option-cases (arrive c t c.pool.fee_ppm m)) [
            | inl e2 ↦ ground (arith, priced, short, same)
            | inr (x, e2) ↦
                let stays = arrive_stays c t c.pool.fee_ppm m e2 in
                let same' =
                  advance_static p.skipped x.sqrt_p t.price t.tick x.tick c.pool.tick_spacing
                    c.a_to_b in
                ground (arith, priced, short, stays, same, same')
          ]
    ]
