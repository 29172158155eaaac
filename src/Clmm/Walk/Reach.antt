-- ===== src/Clmm/Walk/Reach.antt =====
-- quote/clmm.rs: theorems on how far one turn with the static fee goes.
use flow_trades_solana.Base.{
  ℕ, ◌+◌, ◌≤◌, ◌<◌, ◌≡◌, subst, Bool, true, false, some, ◌==◌, if◌then◌else◌, arith, inl, inr,
  Option-cases, Bool-cases, u128_max,
}
use flow_trades_solana.Base.Int.{ℤ, pos, negsuc, neg_ℤ}
use flow_trades_solana.Clmm.Step.{Step, swap_step, fee_denominator_ppm}
use flow_trades_solana.Clmm.Step.Laws.{Steps, swap_step-Steps}
use flow_trades_solana.Clmm.Ticks.{limit_orders_at}
use flow_trades_solana.Clmm.Fees.{StepFee, Pricing}
use flow_trades_solana.Clmm.Fees.Laws.{step_static, advance_static}
use flow_trades_solana.Clmm.Walk.Turn.{turn_static}
use flow_trades_solana.Clmm.Course.{Course, Position, Target}
use flow_trades_solana.Clmm.Walk.{add_net, advance_price, fill_orders, cross_tick, arrive, turn}

-- `b` is where a price at `a` may move to.
abbrev pub Onward : Bool → ℕ → ℕ → Type 0
Onward d a b = if d then b ≤ a else a ≤ b

-- The position is on the machine and has not passed the limit.
pub record Sound (c : Course) (s : Position) : Type 0 where
  pub within : Onward c.a_to_b s.sqrt_p c.limit
  pub price : s.sqrt_p ≤ u128_max
  pub liquidity : s.liq ≤ u128_max
  pub liquidity_next : s.liq_next ≤ u128_max
  pub input : s.remaining ≤ u128_max
  pub static : s.fee ≡ StepFee.static

-- From `s` to `r` at most `n` steps were made, in the swap's direction.
pub record Went (c : Course) (n : ℕ) (s r : Position) : Type 0 where
  pub onward : Onward c.a_to_b s.sqrt_p r.sqrt_p
  pub within : Onward c.a_to_b r.sqrt_p c.limit
  pub spent : r.remaining ≤ s.remaining
  pub steps : r.steps ≤ s.steps + n
  pub crossed : r.crossed ≤ s.crossed + n

add_net-le : (liq : ℕ) (d : ℤ) {l : ℕ} → liq ≤ u128_max → add_net liq d ≡ some l → l ≤ u128_max
unfolding add_net
add_net-le liq (pos n) b h = ground arith
add_net-le liq (negsuc n) b h = ground arith

pub Onward_trans : (d : Bool) (a b e : ℕ) → Onward d a b → Onward d b e → Onward d a e
Onward_trans true a b e p q = omega arith
Onward_trans false a b e p q = omega arith

pub Onward_refl : (d : Bool) (a : ℕ) → Onward d a a
Onward_refl true a = omega arith
Onward_refl false a = omega arith

Onward_small :
    (d : Bool) (a b e : ℕ)
    → Onward d a b
    → Onward d b e
    → a ≤ u128_max
    → e ≤ u128_max
    → b ≤ u128_max
Onward_small true a b e p q x y = omega arith
Onward_small false a b e p q x y = omega arith

-- What a step has done: between its start and its bound, with no more than the input.
MovedTo : Course → ℕ → Position → Position → Type 0
MovedTo c t s r =
    Onward c.a_to_b s.sqrt_p r.sqrt_p
    × Onward c.a_to_b r.sqrt_p t
    × r.remaining ≤ s.remaining
    × r.steps ≤ s.steps + 1
    × (r.crossed ≡ s.crossed)
    × (r.liq ≡ s.liq)
    × (r.liq_next ≡ s.liq_next)
    × (r.fee ≡ s.fee)

step_onward :
    (d : Bool) (p t l remaining : ℕ) {m : Step}
    → Steps d p t l remaining m
    → Onward d p m.next × Onward d m.next t
step_onward true p t l x s = ground (arith, s.side)
step_onward false p t l x s = ground (arith, s.side)

advance_price-MovedTo :
    (c : Course) (p : Pricing) (s : Position) {r : Position}
    → Onward c.a_to_b s.sqrt_p p.bounded
    → s.sqrt_p ≤ u128_max
    → p.bounded ≤ u128_max
    → s.liq ≤ u128_max
    → s.remaining ≤ u128_max
    → p.rate < fee_denominator_ppm
    → advance_price c p s ≡ some r
    → MovedTo c p.bounded s r
unfolding advance_price MovedTo
advance_price-MovedTo c p s {r = r} on pb tb lb rb hf h =
    let start = Onward_refl c.a_to_b s.sqrt_p in
    let end = Onward_refl c.a_to_b p.bounded in
    elim (Bool-cases (s.sqrt_p == p.bounded)) [
      | inl e ↦ ground (arith, start, on)
      | inr e ↦ elim (Bool-cases (s.liq == 0)) [
        | inl e1 ↦ ground (arith, on, end)
        | inr e1 ↦
            elim (Option-cases
              (swap_step s.sqrt_p p.bounded s.liq s.remaining p.rate c.a_to_b c.on_input)) [
                | inl e2 ↦ ground arith
                | inr (m, e2) ↦
                    let steps =
                      swap_step-Steps s.sqrt_p p.bounded s.liq s.remaining p.rate c.a_to_b
                        c.on_input on pb tb lb rb hf e2 in
                    let (o1, o2) =
                      step_onward c.a_to_b s.sqrt_p p.bounded s.liq s.remaining steps in
                    ground (arith, o1, o2)
              ]
      ]
    ]

-- What an arrival does: it spends input and crosses one tick at most.
arrive-Sound :
    (c : Course) (t : Target) (rate : ℕ) (s : Position) {r : Position}
    → s.liq ≤ u128_max
    → s.liq_next ≤ u128_max
    → arrive c t rate s ≡ some r
    → (r.sqrt_p ≡ s.sqrt_p)
      × (r.remaining ≤ s.remaining)
      × (r.liq ≤ u128_max)
      × (r.liq_next ≤ u128_max)
      × (r.steps ≡ s.steps)
      × (r.crossed ≤ s.crossed + 1)
unfolding arrive cross_tick
arrive-Sound c t rate s lb nb h = elim (Option-cases t.net) [
  | inl e ↦ ground arith
  | inr (net, e) ↦
      let unfilled = limit_orders_at c.ticks t.tick in
      elim (Option-cases (fill_orders c unfilled s.remaining t.price rate)) [
        | inl e1 ↦ ground arith
        | inr (m, e1) ↦ elim (Option-cases (add_net s.liq (if c.a_to_b then neg_ℤ net else net))) [
          | inl e2 ↦ ground arith
          | inr (l, e2) ↦
              let small = add_net-le s.liq (if c.a_to_b then neg_ℤ net else net) lb e2 in
              ground (arith, small)
        ]
      ]
]

-- A target that a position may walk to.
pub record Aimed (c : Course) (t : Target) (s : Position) : Type 0 where
  pub ahead : Onward c.a_to_b s.sqrt_p t.target
  pub inside : Onward c.a_to_b t.target c.limit
  pub small : t.target ≤ u128_max

pub turn_to :
    (c : Course) (t : Target) (s : Position) {r : Position}
    → c.pool.fee_ppm < fee_denominator_ppm
    → Sound c s
    → Aimed c t s
    → turn c t s ≡ some r
    → Went c 1 s r × Sound c r
unfolding turn MovedTo
turn_to c t s {r = r} hf w a h =
    let p : Pricing = record {
      fee = StepFee.static;
      rate = c.pool.fee_ppm;
      bounded = t.target;
      skipped = true;
    } in
    let priced =
      step_static c.pool.fee_ppm t.target s.liq c.pool.tick_spacing c.pool.layout c.a_to_b in
    let s' = record s { fee = StepFee.static } in
    let h' : turn c t s' ≡ some r =
      subst (λ f. turn c t (record s { fee = f }) ≡ some r) w.static h in
    let (_, static) = turn_static c t s w.static h in
    elim (Option-cases (advance_price c p s')) [
      | inl e1 ↦ ground (arith, priced)
      | inr (m, e1) ↦
          let (on, upto, spent, steps, crossed, liq, next, _) =
            advance_price-MovedTo c p s' a.ahead w.price a.small w.liquidity w.input hf e1 in
          let limit = Onward_trans c.a_to_b m.sqrt_p t.target c.limit upto a.inside in
          let same =
            advance_static p.skipped m.sqrt_p t.price t.tick m.tick c.pool.tick_spacing c.a_to_b in
          let small = Onward_small c.a_to_b s.sqrt_p m.sqrt_p t.target on upto w.price a.small in
          elim (Option-cases (arrive c t c.pool.fee_ppm m)) [
            | inl e2 ↦
                ground (
                  arith, priced, on, limit, small, spent, steps, crossed, liq, next, same, w,
                  static,
                )
            | inr (x, e2) ↦
                let stays =
                  arrive-Sound c t c.pool.fee_ppm m (omega (arith, liq, w.liquidity))
                    (omega (arith, next, w.liquidity_next)) e2 in
                let same' =
                  advance_static p.skipped x.sqrt_p t.price t.tick x.tick c.pool.tick_spacing
                    c.a_to_b in
                ground (
                  arith, priced, on, limit, small, spent, steps, crossed, liq, next, stays, same,
                  same', w, static,
                )
          ]
    ]
