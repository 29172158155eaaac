-- ===== src/Math/Clmm/MultiTick/Laws.antt =====
-- quote/math.rs: theorems on the walk over several ranges.
use flow_trades_solana.Base.{
  ℕ, zero, suc, ◌+◌, ◌-◌, ◌*◌, ◌/◌, ◌<◌, ◌%◌, ◌^◌, ◌≡◌, refl, Bool, true, false, List, [], Option,
  none, some, ◌==◌, if◌then◌else◌, arith, inl, inr, Option-cases, Bool-cases, le→leb, ◌⊎◌, ◌↔◌,
  subst,
}
use flow_trades_solana.Base.Int.{ℤ}
use flow_trades_solana.Math.Clmm.{curve_out, virtual_reserves, compute_clmm_output}
use flow_trades_solana.Math.Clmm.Laws.{
  output_parts, output_inversion, after_fee, reserve_in, reserve_out,
}
use flow_trades_solana.Math.Clmm.MultiTick.{
  max_tick_crossings, Walk, Round, crossing, filled, in_range, round, after, goes_on, walk,
  walk_fuel, start, compute_clmm_output_multi_tick,
}

-- What a round leaves to do: nothing of the amount, or one boundary less.
abbrev Steps : Walk → Option Round → Type 0
Steps w (some (Round.again w')) = (w'.amount_remaining ≡ 0) ⊎ (w'.crossings ≡ w.crossings + 1)
Steps w (some (Round.stop w')) = Unit
Steps w none = Unit

record Progress (w : Walk) (r : Option Round) : Type 0 where
  steps : Steps w r

filled-Progress : (w : Walk) (o : ℕ) → Progress w (filled w o)
unfolding filled
filled-Progress w o = record { steps = ground arith }

crossing-Progress :
    (d : Bool) (ticks : List (ℤ × ℕ)) (w : Walk) (r_in r_out part : ℕ)
    → Progress w (crossing d ticks w r_in r_out part)
unfolding crossing
crossing-Progress d ticks w r_in r_out part = record { steps = ground arith }

in_range-Progress :
    (d : Bool) (ticks : List (ℤ × ℕ)) (w : Walk) (r : ℕ × ℕ) → Progress w (in_range d ticks w r)
unfolding in_range
in_range-Progress d ticks w (r_in, r_out) =
    let p = (filled-Progress w (r_out - r_out * r_in / (r_in + w.amount_remaining))).steps in
    let q = (crossing-Progress d ticks w r_in r_out (r_out * 9 % 2 ^ 128 / 10)).steps in
    record { steps = ground (arith, p, q) }

round-Progress : (d : Bool) (ticks : List (ℤ × ℕ)) (w : Walk) → Progress w (round d ticks w)
unfolding round
round-Progress d ticks w = elim (Option-cases (virtual_reserves w.current_sqrt w.current_liq d)) [
  | inl e ↦ record { steps = ground arith }
  | inr (r, e) ↦
      let p = (in_range-Progress d ticks w r).steps in record { steps = ground (arith, p) }
]

-- The rounds that a state can still take.
abbrev rounds_left : Walk → ℕ
rounds_left w = if w.amount_remaining == 0 then 0 else (max_tick_crossings + 1) - w.crossings

-- The loop of the source, which has no fuel: where it ends from a state, or `none` where a round overflows.
pub data Loop (d : Bool) (ticks : List (ℤ × ℕ)) : Walk → Option Walk → Type 0 where
  tested : {w : Walk} → goes_on w ≡ false → Loop d ticks w (some w)
  broken :
      {w w' : Walk}
      → goes_on w ≡ true
      → round d ticks w ≡ some (Round.stop w')
      → Loop d ticks w (some w')
  overflowed : {w : Walk} → goes_on w ≡ true → round d ticks w ≡ none → Loop d ticks w none
  turned :
      {w v : Walk} {o : Option Walk}
      → goes_on w ≡ true
      → round d ticks w ≡ some (Round.again v)
      → Loop d ticks v o
      → Loop d ticks w o

module _ (d : Bool) (ticks : List (ℤ × ℕ)) where
  fewer_left :
      (w v : Walk)
      → goes_on w ≡ true
      → round d ticks w ≡ some (Round.again v)
      → rounds_left v < rounds_left w
  fewer_left w v e r =
      let s = subst (Steps w) r (round-Progress d ticks w).steps in ground (arith, s)

  after-Loop :
      (w : Walk) (rest : Walk → Option Walk) (r : Option Round)
      → goes_on w ≡ true
      → round d ticks w ≡ r
      → ((v : Walk) → rounds_left v < rounds_left w → Loop d ticks v (rest v))
      → Loop d ticks w (after r rest)
  unfolding after
  after-Loop w rest none e k loop = overflowed e k
  after-Loop w rest (some (Round.stop v)) e k loop = broken e k
  after-Loop w rest (some (Round.again v)) e k loop = turned e k (loop v (fewer_left w v e k))

  walk-Loop : (f : ℕ) (w : Walk) → rounds_left w < f → Loop d ticks w (walk f d ticks w)
  unfolding walk
  walk-Loop zero w h = absurd (omega arith)
  walk-Loop (suc f) w h = elim (Bool-cases (goes_on w)) [
    | inl e ↦
        rw (e, walk)
          (after-Loop w (walk f d ticks) (round d ticks w) e refl
            (λ v less. walk-Loop f v (omega arith)))
    | inr e ↦ rw (e, walk) (tested e)
  ]

  Loop-walk :
      (f : ℕ) {w : Walk} {o : Option Walk}
      → Loop d ticks w o
      → rounds_left w < f
      → walk f d ticks w ≡ o
  unfolding walk after
  Loop-walk zero l h = absurd (omega arith)
  Loop-walk (suc f) (tested e) h = rw (e, walk)
  Loop-walk (suc f) (broken e r) h = rw (e, r, walk, after)
  Loop-walk (suc f) (overflowed e r) h = rw (e, r, walk, after)
  Loop-walk (suc f) (turned {w} {v} e r l) h =
      let less = fewer_left w v e r in rw (e, r, walk, after) (Loop-walk f l (omega arith))

-- From the start of a quote the walk returns what the loop, which has no fuel, ends in, and overflows where it does:
-- the fuel never ends it. The loop's own test ends it too, once eleven boundaries are crossed, with input left.
pub walk_fuel_enough :
    (d : Bool) (ticks : List (ℤ × ℕ)) (amount sqrt liquidity : ℕ) (o : Option Walk)
    → let w = start amount sqrt liquidity in (walk walk_fuel d ticks w ≡ o) ↔ Loop d ticks w o
walk_fuel_enough d ticks amount sqrt liquidity o =
    let w = start amount sqrt liquidity in
    let enough : rounds_left w < walk_fuel = ground arith in
    (
      λ e. subst (Loop d ticks w) e (walk-Loop d ticks walk_fuel w enough),
      λ l. Loop-walk d ticks walk_fuel l enough,
    )

abbrev finished : ℕ → ℕ → ℕ → Walk
finished p l o = record {
  amount_remaining = 0;
  current_sqrt = p;
  current_liq = l;
  total_output = o;
  crossings = 0;
}

-- With no boundary ahead one round fills the whole amount.
in_range-lone :
    (d : Bool) (w : Walk) (r_in r_out : ℕ) {o : ℕ}
    → 0 < r_in
    → 0 < r_out
    → curve_out r_in r_out w.amount_remaining ≡ some o
    → in_range d [] w (r_in, r_out) ≡ filled w o
unfolding in_range curve_out
in_range-lone d w r_in r_out a b h = ground arith

walk_done :
    (f : ℕ) (d : Bool) (ticks : List (ℤ × ℕ)) (w : Walk)
    → goes_on w ≡ false
    → walk f d ticks w ≡ some w
unfolding walk
walk_done zero d ticks w e = refl
walk_done (suc f) d ticks w e = rw (e, walk)

walk_step :
    (f : ℕ) (d : Bool) (ticks : List (ℤ × ℕ)) (w : Walk)
    → goes_on w ≡ true
    → walk (suc f) d ticks w ≡ after (round d ticks w) (walk f d ticks)
unfolding walk
walk_step f d ticks w e = rw (e, walk)

round-lone :
    (d : Bool) (x p l r_in r_out : ℕ) {o : ℕ}
    → 0 < p
    → 0 < l
    → 0 < r_in
    → 0 < r_out
    → o < 2 ^ 128
    → virtual_reserves p l d ≡ some (r_in, r_out)
    → curve_out r_in r_out x ≡ some o
    → round d [] (start x p l) ≡ some (Round.again (finished p l o))
unfolding round filled
round-lone d x p l r_in r_out pp pl pi po small v c =
    ground (arith, in_range-lone d (start x p l) r_in r_out pi po c)

-- The whole walk, then.
walk-lone :
    (f : ℕ) (d : Bool) (x p l r_in r_out : ℕ) {o : ℕ}
    → 0 < x
    → 0 < p
    → 0 < l
    → 0 < r_in
    → 0 < r_out
    → o < 2 ^ 128
    → virtual_reserves p l d ≡ some (r_in, r_out)
    → curve_out r_in r_out x ≡ some o
    → walk (suc f) d [] (start x p l) ≡ some (finished p l o)
walk-lone f d x p l r_in r_out {o} px pp pl pi po small v c =
    rw
      (
        walk_step f d [] (start x p l) (ground arith),
        round-lone d x p l r_in r_out pp pl pi po small v c,
      )
      (unfold after in walk_done f d [] (finished p l o) refl)

-- With no boundary ahead the walk is the single-range formula: wherever that quotes, the walk
-- quotes the same.
pub compute_clmm_output_multi_tick_single_range :
    (p l amount fee : ℕ) (d : Bool) {o : ℕ}
    → compute_clmm_output p l amount fee d ≡ some o
    → compute_clmm_output_multi_tick p l amount fee d [] ≡ some o
unfolding compute_clmm_output_multi_tick
compute_clmm_output_multi_tick_single_range p l amount fee d {o} h =
    let q = output_parts p l amount fee d h in
    let (_, _, small) = output_inversion p l amount fee d h in
    ground (
      arith,
      le→leb _ _ q.fits,
      walk-lone 11 d (after_fee amount fee) p l (reserve_in p l d) (reserve_out p l d) q.input_pos
          q.price_pos q.liquidity_pos q.in_pos q.out_pos (omega arith) q.reserves q.priced,
    )
