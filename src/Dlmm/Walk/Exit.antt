-- ===== src/Dlmm/Walk/Exit.antt =====
-- quote/dlmm.rs: theorems on how the inner loop of the walk ends.
use flow_trades_solana.Base.{
  ℕ, zero, suc, ◌+◌, ◌-◌, ◌≤◌, ◌<◌, ◌≡◌, refl, ap, ◌∙◌, ◌⊎◌, inl, inr, Bool, true, false, not, ◌&&◌,
  ◌==◌, some, arith, leb→le, Bool-cases, Option-cases, get_elem?,
}
use flow_trades_solana.Base.Int.{ℤ, pos, pos_part, neg_part, sub_ℕ, ◌-ℤ◌, ◌+ℤ◌, leb_ℤ}
use flow_trades_solana.Dlmm.Pair.{update_volatility_accumulator}
use flow_trades_solana.Dlmm.Bin.{Bin}
use flow_trades_solana.Dlmm.Arrays.{BinArray, beyond, lower_bin_id}
use flow_trades_solana.Dlmm.Walk.{
  Walked, and_then, ok_or, WalkState, Direction, swap_here, visit, advance, upper_bin_id, inside,
  bins_ahead, walk_bins,
}
use flow_trades_solana.Dlmm.Walk.Laws.{Walked-cases}

-- Both parts of a difference are the truncated differences.
sub_parts : (a b : ℕ) → (pos_part (sub_ℕ a b) ≡ a - b) × (neg_part (sub_ℕ a b) ≡ b - a)
sub_parts a b = ground arith

add_parts :
    (x y : ℤ)
    → (pos_part (x +ℤ y) ≡ pos_part x + pos_part y - (neg_part x + neg_part y))
      × (neg_part (x +ℤ y) ≡ neg_part x + neg_part y - (pos_part x + pos_part y))
add_parts x y = sub_parts (pos_part x + pos_part y) (neg_part x + neg_part y)

minus_parts :
    (x y : ℤ)
    → (pos_part (x -ℤ y) ≡ pos_part x + neg_part y - (neg_part x + pos_part y))
      × (neg_part (x -ℤ y) ≡ neg_part x + pos_part y - (pos_part x + neg_part y))
minus_parts x y = sub_parts (pos_part x + neg_part y) (neg_part x + pos_part y)

-- Steps towards the end of an array, on the ids.
ahead_pos : (lo id : ℤ) → leb_ℤ lo id ≡ true → 0 < pos_part ((id -ℤ lo) +ℤ pos 1)
ahead_pos lo id h =
    let le = leb→le (pos_part lo + neg_part id) (pos_part id + neg_part lo) h in
    omega (arith, le, minus_parts id lo, add_parts (id -ℤ lo) (pos 1))

less_down :
    (lo id : ℤ)
    → leb_ℤ lo id ≡ true
    → pos_part (((id -ℤ pos 1) -ℤ lo) +ℤ pos 1) < pos_part ((id -ℤ lo) +ℤ pos 1)
less_down lo id h =
    let le = leb→le (pos_part lo + neg_part id) (pos_part id + neg_part lo) h in
    omega (
      arith,
      le,
      minus_parts id (pos 1),
      minus_parts (id -ℤ pos 1) lo,
      add_parts ((id -ℤ pos 1) -ℤ lo) (pos 1),
      minus_parts id lo,
      add_parts (id -ℤ lo) (pos 1),
    )

less_up :
    (up id : ℤ)
    → leb_ℤ id up ≡ true
    → pos_part ((up -ℤ (id +ℤ pos 1)) +ℤ pos 1) < pos_part ((up -ℤ id) +ℤ pos 1)
less_up up id h =
    let le = leb→le (pos_part id + neg_part up) (pos_part up + neg_part id) h in
    omega (
      arith,
      le,
      add_parts id (pos 1),
      minus_parts up (id +ℤ pos 1),
      add_parts (up -ℤ (id +ℤ pos 1)) (pos 1),
      minus_parts up id,
      add_parts (up -ℤ id) (pos 1),
    )

and_parts : {a b : Bool} → (a && b) ≡ true → (a ≡ true) × (b ≡ true)
and_parts {a = true} {b = true} h = (refl, refl)
and_parts {a = true} {b = false} h = ground arith
and_parts {a = false} h = ground arith

ahead_inside : (d : Direction) (a : BinArray) (id : ℤ) → inside a id ≡ true → 0 < bins_ahead d a id
unfolding inside bins_ahead
ahead_inside d a id h = elim (Bool-cases d.swap_for_y) [
  | inl e ↦ ground (arith, ahead_pos (lower_bin_id a) id)
  | inr e ↦ ground (arith, ahead_pos id (upper_bin_id a))
]

ahead_less :
    (d : Direction) (a : BinArray) (id : ℤ)
    → inside a id ≡ true
    → bins_ahead d a (beyond d.swap_for_y id) < bins_ahead d a id
unfolding inside bins_ahead
ahead_less d a id h = elim (Bool-cases d.swap_for_y) [
  | inl e ↦ rw e (less_down (lower_bin_id a) id (and_parts h).0)
  | inr e ↦ rw e (less_up (upper_bin_id a) id (and_parts h).1)
]

visit_keeps :
    (d : Direction) (b : Bin) (s : WalkState) {t : WalkState}
    → visit d b s ≡ some t
    → t.pair.active_id ≡ s.pair.active_id
unfolding visit update_volatility_accumulator
visit_keeps d b s h =
    elim (Option-cases (swap_here d b (update_volatility_accumulator s.pair) s.left)) [
      | inl e ↦ ground arith
      | inr (x, e) ↦ ground arith
    ]

advance_lem :
    (d : Direction) (s : WalkState) {t : WalkState}
    → advance d s ≡ Walked.ok t
    → (t.left ≡ 0) ⊎ (t.pair.active_id ≡ beyond d.swap_for_y s.pair.active_id)
unfolding advance
advance_lem d s h = ground arith

-- With the input spent the loop is over.
walk_bins_spent :
    (n : ℕ) (d : Direction) (a : BinArray) (s : WalkState)
    → s.left ≡ 0
    → walk_bins n d a s ≡ Walked.ok s
unfolding walk_bins
walk_bins_spent zero d a s h = refl
walk_bins_spent (suc n) d a s h = ground arith

-- Given at least the bins ahead, the inner loop returns only once its condition is false: the input is
-- spent, or the active bin is outside the array.
pub walk_bins_exit :
    (n : ℕ) (d : Direction) (a : BinArray) (s : WalkState) {t : WalkState}
    → bins_ahead d a s.pair.active_id ≤ n
    → walk_bins n d a s ≡ Walked.ok t
    → (not (t.left == 0) && inside a t.pair.active_id) ≡ false
unfolding walk_bins and_then ok_or
walk_bins_exit zero d a s le h = ground (arith, ahead_inside d a s.pair.active_id)
walk_bins_exit (suc n) d a s {t = t} le h =
    let here = get_elem? a.bins (pos_part (s.pair.active_id -ℤ lower_bin_id a)) in
    elim (Bool-cases (not (s.left == 0) && inside a s.pair.active_id)) [
      | inr e ↦ ground arith
      | inl e ↦ elim (Option-cases here) [
        | inl e0 ↦ ground arith
        | inr (b, e0) ↦ elim (Option-cases (visit d b s)) [
          | inl e1 ↦ ground arith
          | inr (v, e1) ↦ elim (Walked-cases (advance d v)) [
            | inl (x, e2) ↦ ground arith
            | inr (w, e2) ↦
                let go : walk_bins n d a w ≡ Walked.ok t = ground arith in
                elim (advance_lem d v e2) [
                  | inl spent ↦ ground (arith, walk_bins_spent n d a w spent)
                  | inr moved ↦
                      let id : w.pair.active_id ≡ beyond d.swap_for_y s.pair.active_id =
                        moved ∙ ap (beyond d.swap_for_y) (visit_keeps d b s e1) in
                      let less : bins_ahead d a (beyond d.swap_for_y s.pair.active_id)
                          < bins_ahead d a s.pair.active_id =
                        ahead_less d a s.pair.active_id (and_parts e).1 in
                      let fits : bins_ahead d a w.pair.active_id ≤ n =
                        rw id (omega (arith, less)) in
                      walk_bins_exit n d a w fits go
                ]
          ]
        ]
      ]
    ]
