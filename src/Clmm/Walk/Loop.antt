-- ===== src/Clmm/Walk/Loop.antt =====
-- quote/clmm.rs: theorems on the inner loop's fuel, and on the static fee, which needs one turn of it.
use flow_trades_solana.Base.{
  ℕ, zero, suc, ◌≤◌, ◌≡◌, refl, sym, ◌∙◌, Bool, Option, none, some, ◌||◌, ◌==◌, arith, inl, inr,
  Option-cases, Bool-cases,
}
use flow_trades_solana.Base.Int.{ℤ}
use flow_trades_solana.Clmm.Ticks.{TickData}
use flow_trades_solana.Clmm.Fees.{ClmmPool, StepFee, new_step_fee}
use flow_trades_solana.Clmm.Fees.Laws.{new_step_fee_static}
use flow_trades_solana.Clmm.Course.{Course, Position, Target, course, begin}
use flow_trades_solana.Clmm.Walk.{
  WalkResult, turn, settled, approach, aim, after_turn, after_round, round, walk, most_rounds,
  swap_exact_in_pool_within,
}
use flow_trades_solana.Clmm.Walk.Turn.{turn_static}

-- An answer is kept.
Keeps : Option Position → Option Position → Type 0
Keeps o p = (r : Position) → o ≡ some r → p ≡ some r

after_turn-Keeps :
    (t : Target) (f g : Position → Option Position) (o : Option Position)
    → ((y : Position) → Keeps (f y) (g y))
    → Keeps (after_turn t f o) (after_turn t g o)
unfolding Keeps after_turn
after_turn-Keeps t f g none k r h = h
after_turn-Keeps t f g (some x) k r h = elim (Bool-cases (settled t x)) [
  | inl e ↦ rw e (sym (rw e refl) ∙ h)
  | inr e ↦ rw e (k x r (sym (rw e refl) ∙ h))
]

kept_after_round :
    (c : Course) (t : Target) (f g : Position → Option Position) (x r : Position)
    → ((y : Position) → Keeps (f y) (g y))
    → (o : Option ℤ) → t.net ≡ o
    → after_round c t f (some x) ≡ some r
    → after_round c t g (some x) ≡ some r
unfolding Keeps after_round
kept_after_round c t f g x r k none e h = rw e (sym (rw e refl) ∙ h)
kept_after_round c t f g x r k (some net) e h = rw e (k _ r (sym (rw e refl) ∙ h))

after_round-Keeps :
    (c : Course) (t : Target) (f g : Position → Option Position) (o p : Option Position)
    → ((y : Position) → Keeps (f y) (g y))
    → Keeps o p
    → Keeps (after_round c t f o) (after_round c t g p)
unfolding Keeps after_round
after_round-Keeps c t f g none p k q r h = ground arith
after_round-Keeps c t f g (some x) p k q r h =
    rw (q x refl) (kept_after_round c t f g x r k t.net refl h)

-- With more fuel every answer is kept.
approach-Keeps :
    (n m : ℕ)
    → n ≤ m
    → (c : Course) (t : Target) (s : Position) → Keeps (approach n c t s) (approach m c t s)
unfolding approach Keeps
approach-Keeps zero m n≤m c t s r h = ground arith
approach-Keeps (suc n) zero n≤m c t s r h = ground (arith, n≤m)
approach-Keeps (suc n) (suc m) n≤m c t s r h =
    after_turn-Keeps t (approach n c t) (approach m c t) (turn c t s)
      (approach-Keeps n m (omega arith) c t) r h

round-Keeps :
    (n m : ℕ)
    → n ≤ m
    → (c : Course) (s : Position) (f g : Position → Option Position)
    → ((y : Position) → Keeps (f y) (g y))
    → (o : Option Target) → Keeps (round n c s f o) (round m c s g o)
unfolding round Keeps
round-Keeps n m n≤m c s f g k none r h = h
round-Keeps n m n≤m c s f g k (some t) r h =
    after_round-Keeps c t f g _ _ k (approach-Keeps n m n≤m c t (record s { liq_next = s.liq })) r h

walk-Keeps :
    (rounds n m : ℕ)
    → n ≤ m
    → (c : Course) (s : Position) → Keeps (walk rounds n c s) (walk rounds m c s)
unfolding walk Keeps
walk-Keeps zero n m n≤m c s r h = h
walk-Keeps (suc rounds) n m n≤m c s r h =
    elim (Bool-cases (s.remaining == 0 || s.sqrt_p == c.limit)) [
      | inl e ↦ rw e (sym (rw e refl) ∙ h)
      | inr e ↦ rw e (
          round-Keeps n m n≤m c s _ _ (walk-Keeps rounds n m n≤m c) (aim c s) r
            (sym (rw e refl) ∙ h))
    ]

-- A swap that is answered with some fuel for each inner loop has the same answer with more.
pub swap_more_fuel :
    (n m : ℕ)
    → n ≤ m
    → (pool : ClmmPool) (ticks : TickData) (a_to_b : Bool) (amount_in : ℕ) (bound : Option ℤ)
      (w : WalkResult)
    → swap_exact_in_pool_within n pool ticks a_to_b amount_in bound ≡ some w
    → swap_exact_in_pool_within m pool ticks a_to_b amount_in bound ≡ some w
unfolding swap_exact_in_pool_within Keeps
swap_more_fuel n m n≤m pool ticks a_to_b amount_in bound w h =
    elim (Option-cases (new_step_fee pool)) [
      | inl e ↦ ground arith
      | inr (fee, e) ↦
          let c = course pool ticks a_to_b bound in
          let s = begin pool ticks a_to_b amount_in fee in
          elim (Option-cases (walk most_rounds n c s)) [
            | inl e1 ↦ ground arith
            | inr (x, e1) ↦ let kept = walk-Keeps most_rounds n m n≤m c s x e1 in ground arith
          ]
    ]

pub approach_static :
    (n : ℕ) (c : Course) (t : Target) (s : Position)
    → s.fee ≡ StepFee.static
    → approach (suc n) c t s ≡ turn c t s
unfolding approach after_turn
approach_static n c t s e = elim (Option-cases (turn c t s)) [
  | inl h ↦ rw h refl
  | inr (x, h) ↦ let (done, _) = turn_static c t s e h in rw h (rw done refl)
]

after_round_static :
    (c : Course) (t : Target) (f g : Position → Option Position) (s : Position)
    → ((y : Position) → y.fee ≡ StepFee.static → f y ≡ g y)
    → s.fee ≡ StepFee.static
    → (o : Option ℤ) → t.net ≡ o
    → after_round c t f (some s) ≡ after_round c t g (some s)
unfolding after_round
after_round_static c t f g s k st none e = rw e refl
after_round_static c t f g s k st (some net) e = rw e (k _ st)

round_static :
    (n : ℕ) (c : Course) (s : Position) (f g : Position → Option Position)
    → ((y : Position) → y.fee ≡ StepFee.static → f y ≡ g y)
    → s.fee ≡ StepFee.static
    → (o : Option Target) → round (suc n) c s f o ≡ round 1 c s g o
unfolding round
round_static n c s f g k e none = refl
round_static n c s f g k e (some t) =
    let s' = record s { liq_next = s.liq } in
    rw (approach_static n c t s' e) (
      rw (approach_static 0 c t s' e) (elim (Option-cases (turn c t s')) [
        | inl h ↦ rw h refl
        | inr (x, h) ↦
            let (_, st) = turn_static c t s' e h in
            rw h (after_round_static c t f g x k st t.net refl)
      ]))

walk_static :
    (rounds n : ℕ) (c : Course) (s : Position)
    → s.fee ≡ StepFee.static
    → walk rounds (suc n) c s ≡ walk rounds 1 c s
unfolding walk
walk_static zero n c s e = refl
walk_static (suc rounds) n c s e =
    rw
      (round_static n c s (walk rounds (suc n) c) (walk rounds 1 c) (walk_static rounds n c) e
        (aim c s))
      refl

-- In a pool with neither of the fees that follow the price, one turn of the inner loop for each tick is
-- all that a swap takes: any more fuel gives the same answer, and the same refusal.
pub swap_static_fuel :
    (n : ℕ) (pool : ClmmPool) (ticks : TickData) (a_to_b : Bool) (amount_in : ℕ) (bound : Option ℤ)
    → pool.fee_ext.dynamic_fee ≡ none
    → pool.adaptive_fee ≡ none
    → swap_exact_in_pool_within (suc n) pool ticks a_to_b amount_in bound
      ≡ swap_exact_in_pool_within 1 pool ticks a_to_b amount_in bound
unfolding swap_exact_in_pool_within begin
swap_static_fuel n pool ticks a_to_b amount_in bound d a =
    let same =
      walk_static most_rounds n (course pool ticks a_to_b bound)
        (begin pool ticks a_to_b amount_in StepFee.static) refl in
    rw (new_step_fee_static pool d a) (rw same refl)
