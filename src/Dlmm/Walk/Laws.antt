-- ===== src/Dlmm/Walk/Laws.antt =====
-- quote/dlmm.rs: theorems on a walk that ends, and on the quote from it.
use flow_trades_solana.Base.{
  ℕ, zero, suc, ◌+◌, ◌≤◌, ◌≡◌, Bool, true, not, ◌&&◌, some, arith, inl, inr, ◌⊎◌, refl, ◌∙◌,
  Option-cases, Bool-cases, get_elem?, ◌==◌,
}
use flow_trades_solana.Base.Int.{ℤ, pos_part, ◌-ℤ◌}
use flow_trades_solana.Dlmm.Pair.{
  is_parsed, is_tradable, update_references, update_volatility_accumulator,
}
use flow_trades_solana.Dlmm.Bin.{Bin}
use flow_trades_solana.Dlmm.Arrays.{BinArray, lower_bin_id, array_index}
use flow_trades_solana.Dlmm.Walk.{
  WalkError, Walked, and_then, ok_or, DlmmBins, DlmmQuote, WalkState, Direction, swap_here, visit,
  advance, inside, bins_ahead, walk_bins, enter, next_array, direction_of, start_of, walk_arrays,
  quote_of, swap_exact_in,
}

-- Input and arrays only ever go one way: the input shrinks, the output grows.
record Progress (s t : WalkState) : Type 0 where
  arrays_same : t.arrays_entered ≡ s.arrays_entered
  left_le : t.left ≤ s.left
  out_le : s.out_total ≤ t.out_total

pub Walked-cases {ℓ} :
    {A : Type ℓ} (w : Walked A)
    → ((e : WalkError) × (w ≡ Walked.err e)) ⊎ ((a : A) × (w ≡ Walked.ok a))
Walked-cases (Walked.ok a) = inr (a, refl)
Walked-cases (Walked.err e) = inl (e, refl)

visit-Progress :
    (d : Direction) (b : Bin) (s : WalkState) {t : WalkState} → visit d b s ≡ some t → Progress s t
unfolding visit
visit-Progress d b s h =
    elim (Option-cases (swap_here d b (update_volatility_accumulator s.pair) s.left)) [
      | inl e ↦ ground arith
      | inr (x, e) ↦ ground arith
    ]

advance-Progress :
    (d : Direction) (s : WalkState) {t : WalkState} → advance d s ≡ Walked.ok t → Progress s t
unfolding advance
advance-Progress d s h = ground arith

Progress-trans : (s t u : WalkState) → Progress s t → Progress t u → Progress s u
Progress-trans s t u p q =
    let le : u.left ≤ s.left = omega (arith, p.left_le, q.left_le) in
    let out : s.out_total ≤ u.out_total = omega (arith, p.out_le, q.out_le) in
    record { arrays_same = q.arrays_same ∙ p.arrays_same; left_le = le; out_le = out }

Progress-refl : (s : WalkState) → Progress s s
Progress-refl s = record { arrays_same = refl; left_le = omega arith; out_le = omega arith }

walk_bins-Progress :
    (ahead : ℕ) (d : Direction) (a : BinArray) (s : WalkState) {t : WalkState}
    → walk_bins ahead d a s ≡ Walked.ok t
    → Progress s t
unfolding walk_bins and_then ok_or
walk_bins-Progress zero d a s h = ground (arith, Progress-refl s)
walk_bins-Progress (suc n) d a s {t = t} h =
    let here = get_elem? a.bins (pos_part (s.pair.active_id -ℤ lower_bin_id a)) in
    elim (Bool-cases (not (s.left == 0) && inside a s.pair.active_id)) [
      | inr e ↦ ground (arith, Progress-refl s)
      | inl e ↦ elim (Option-cases here) [
        | inl e0 ↦ ground arith
        | inr (b, e0) ↦ elim (Option-cases (visit d b s)) [
          | inl e1 ↦ ground arith
          | inr (v, e1) ↦ elim (Walked-cases (advance d v)) [
            | inl (x, e2) ↦ ground arith
            | inr (w, e2) ↦
                let on = walk_bins-Progress n d a w {t = t} in
                let first =
                  Progress-trans s v w (visit-Progress d b s e1) (advance-Progress d v e2) in
                ground (arith, on, Progress-trans s w t first)
          ]
        ]
      ]
    ]

-- From one state of a walk to its last: the whole input is spent, at most `n` further arrays were
-- entered, and the output only grew.
pub record Finished (n : ℕ) (s t : WalkState) : Type 0 where
  pub spent : t.left ≡ 0
  pub arrays_le : t.arrays_entered ≤ s.arrays_entered + n
  pub out_le : s.out_total ≤ t.out_total

-- One array more, and what follows.
entered_more :
    (n : ℕ) (d : Direction) (a : BinArray) (same : Bool) (s : WalkState) {w : WalkState}
    → Progress (enter d a same s) w
    → (t : WalkState) → Finished n w t
    → Finished (suc n) s t
unfolding enter
entered_more n d a same s p t f =
    let arrays : t.arrays_entered ≤ s.arrays_entered + suc n =
      omega (arith, p.arrays_same, f.arrays_le) in
    let out : s.out_total ≤ t.out_total = omega (arith, p.out_le, f.out_le) in
    record { spent = f.spent; arrays_le = arrays; out_le = out }

-- A walk that ends without an error has spent the whole input, has entered at most the arrays that it
-- had left, and has only added to the output.
pub walk_arrays-Finished :
    (n : ℕ) (bins : DlmmBins) (d : Direction) (s : WalkState) {t : WalkState}
    → walk_arrays n bins d s ≡ Walked.ok t
    → Finished n s t
unfolding walk_arrays and_then
walk_arrays-Finished zero bins d s h = ground arith
walk_arrays-Finished (suc n) bins d s {t = t} h =
    elim (Walked-cases (next_array bins d (array_index s.pair.active_id))) [
      | inl (x, e) ↦ ground arith
      | inr ((a, same), e) ↦
          let entered = enter d a same s in
          let ahead = bins_ahead d a entered.pair.active_id in
          elim (Walked-cases (walk_bins ahead d a entered)) [
            | inl (x, e1) ↦ ground arith
            | inr (w, e1) ↦
                let more = entered_more n d a same s (walk_bins-Progress ahead d a entered e1) in
                let rest = walk_arrays-Finished n bins d w {t = t} in ground (arith, rest, more t)
          ]
    ]

-- A quote is only given for a pair that is parsed, enabled and activated, and its walk enters at most
-- the arrays it is allowed.
pub swap_exact_in_allowed :
    (bins : DlmmBins) (swap_for_y : Bool) (amount : ℕ) (now : ℤ) (slot max_arrays : ℕ)
    {q : DlmmQuote}
    → swap_exact_in bins swap_for_y amount now slot max_arrays ≡ Walked.ok q
    → ((is_parsed bins.pair && is_tradable bins.pair now slot) ≡ true) × (q.arrays ≤ max_arrays)
unfolding swap_exact_in and_then quote_of start_of
swap_exact_in_allowed bins y amount now slot n h =
    let pair = update_references now bins.pair in
    let d = direction_of pair y in
    let s = start_of pair amount in
    elim (Bool-cases (is_parsed bins.pair && is_tradable bins.pair now slot)) [
      | inr e ↦ ground arith
      | inl e ↦ elim (Walked-cases (walk_arrays n bins d s)) [
        | inl (x, e1) ↦ ground arith
        | inr (t, e1) ↦ ground (arith, walk_arrays-Finished n bins d s e1)
      ]
    ]
