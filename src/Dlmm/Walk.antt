-- ===== src/Dlmm/Walk.antt =====
-- quote/dlmm.rs, `swap_exact_in`: the walk over bins and bin arrays. The outer loop recurs on the
-- arrays that may still be entered, the inner one on the bins ahead in the array.
mod Tests
pub mod Laws
pub mod Exit
use flow_trades_solana.Base.{
  ℕ, zero, suc, ◌+◌, ◌-◌, ◌*◌, ◌/◌, ◌^◌, Bool, true, false, not, ◌&&◌, ◌||◌, Option, none, some,
  List, [], ◌∷◌, ltb, leb, ◌==◌, if◌then◌else◌, ◌>>=◌, get_elem?, checked_sub, checked_add_u64,
  saturating_add_u64,
}
use flow_trades_solana.Base.Int.{ℤ, pos, negsuc, ◌+ℤ◌, ◌-ℤ◌, leb_ℤ, pos_part}
use flow_trades_solana.Dlmm.Pair.{
  DlmmPair, is_parsed, is_tradable, update_references, update_volatility_accumulator,
  total_fee_rate, supports_limit_orders, fee_on_input,
}
use flow_trades_solana.Dlmm.Price.{price_from_id}
use flow_trades_solana.Dlmm.Bin.{Bin, BinSwap, max_amount_out, swap_in_bin}
use flow_trades_solana.Dlmm.Arrays.{
  BinArray, bins_per_array, lower_bin_id, array_index, next_liquid, needs_extension, array, beyond,
}

abbrev pub max_bin_id : ℕ
max_bin_id = 443_636

pub data WalkError : Type 0 where
  not_tradable : WalkError
  exhausted : WalkError
  not_loaded : WalkError
  math : WalkError

-- Rust's `Result` with that error.
pub data Walked {ℓ} (A : Type ℓ) : Type ℓ where
  ok : A → Walked A
  err : WalkError → Walked A

pub and_then {ℓ κ} : {A : Type ℓ} {B : Type κ} → Walked A → (A → Walked B) → Walked B
and_then (ok a) f = f a
and_then (err e) f = err e

pub ok_or {ℓ} : {A : Type ℓ} → WalkError → Option A → Walked A
ok_or e none = err e
ok_or e (some a) = ok a

pub record DlmmBins : Type 0 where
  pub pair : DlmmPair
  pub arrays : List BinArray
  pub liquid : List ℤ
  pub has_extension : Bool

pub record DlmmQuote : Type 0 where
  pub amount_out : ℕ
  pub fee : ℕ
  pub start_bin : ℤ
  pub end_bin : ℤ
  pub arrays : ℕ

pub record WalkState : Type 0 where
  pub pair : DlmmPair
  pub left : ℕ
  pub out_total : ℕ
  pub fee_total : ℕ
  pub arrays_entered : ℕ
  pub start_bin : Option ℤ

-- What `swap_exact_in` reads once, before it walks.
pub record Direction : Type 0 where
  pub swap_for_y : Bool
  pub with_orders : Bool
  pub on_input : Bool

swap_here : Direction → Bin → DlmmPair → ℕ → Option BinSwap
swap_here d b p left = do
  rate ← total_fee_rate p
  price ← if b.price == 0 then price_from_id p.active_id p.bin_step else some b.price
  swap_in_bin b price rate left d.swap_for_y d.with_orders d.on_input

-- The body of the inner loop on a bin, each failure of which is `Math`.
pub visit : Direction → Bin → WalkState → Option WalkState
visit d b s =
    if ltb 0 (max_amount_out b d.swap_for_y d.with_orders)
    then (do
      let p = update_volatility_accumulator s.pair
      swapped ← swap_here d b p s.left
      left ← checked_sub s.left swapped.consumed
      out_total ← checked_add_u64 s.out_total swapped.out
      some (record s {
        pair = p;
        left = left;
        out_total = out_total;
        fee_total = saturating_add_u64 s.fee_total swapped.fee;
      }))
    else some s

in_bounds : ℤ → Bool
in_bounds id = leb_ℤ (pos 0 -ℤ pos max_bin_id) id && leb_ℤ id (pos max_bin_id)

-- To the next bin, when input is left.
pub advance : Direction → WalkState → Walked WalkState
advance d s =
    let next = beyond d.swap_for_y s.pair.active_id in
    if s.left == 0
    then ok s
    else if not (in_bounds next)
    then err exhausted
    else ok (record s { pair = record s.pair { active_id = next } })

upper_bin_id : BinArray → ℤ
upper_bin_id a = lower_bin_id a +ℤ pos (bins_per_array - 1)

pub inside : BinArray → ℤ → Bool
inside a id = leb_ℤ (lower_bin_id a) id && leb_ℤ id (upper_bin_id a)

-- The bins from the active one to the end of the array, in the direction of the swap: when none is
-- ahead, the active bin is outside.
pub bins_ahead : Direction → BinArray → ℤ → ℕ
bins_ahead d a id =
    pos_part ((if d.swap_for_y then id -ℤ lower_bin_id a else upper_bin_id a -ℤ id) +ℤ pos 1)

-- The inner `while`. A bin that is missing from the array, where the source would panic, is `Math`.
pub walk_bins : ℕ → Direction → BinArray → WalkState → Walked WalkState
walk_bins zero d a s = ok s
walk_bins (suc ahead) d a s =
    if not (s.left == 0) && inside a s.pair.active_id
    then and_then
        (ok_or math
          (get_elem? a.bins (pos_part (s.pair.active_id -ℤ lower_bin_id a)) >>= λ b. visit d b s))
        (λ visited. and_then (advance d visited) (walk_bins ahead d a))
    else ok s

-- An empty gap is jumped over, to the edge of the array; the first bin is remembered.
enter : Direction → BinArray → Bool → WalkState → WalkState
enter d a same s =
    let id =
      if same then s.pair.active_id else if d.swap_for_y then upper_bin_id a else lower_bin_id a in
    record s {
      pair = record s.pair { active_id = id };
      arrays_entered = suc s.arrays_entered;
      start_bin = elim s.start_bin [ none ↦ some id | some b ↦ some b ];
    }

-- The array where the walk goes on, and whether it is the active bin's own.
next_array : DlmmBins → Direction → ℤ → Walked (BinArray × Bool)
next_array bins d from =
    if needs_extension from && not bins.has_extension
    then err exhausted
    else and_then (ok_or exhausted (next_liquid bins.liquid from d.swap_for_y)) (λ i.
      and_then (ok_or not_loaded (array bins.arrays i)) (λ a. ok (a, leb_ℤ i from && leb_ℤ from i)))

-- The outer `while`, with the arrays that may still be entered. With none of them left, each of the
-- source's next exits is `Exhausted`.
pub walk_arrays : ℕ → DlmmBins → Direction → WalkState → Walked WalkState
walk_arrays zero bins d s = if s.left == 0 then ok s else err exhausted
walk_arrays (suc remaining) bins d s =
    if s.left == 0
    then ok s
    else and_then (next_array bins d (array_index s.pair.active_id)) (λ (a, same).
      let entered = enter d a same s in
      and_then (walk_bins (bins_ahead d a entered.pair.active_id) d a entered)
        (walk_arrays remaining bins d))

quote_of : WalkState → DlmmQuote
quote_of s = record {
  amount_out = s.out_total;
  fee = s.fee_total;
  start_bin = elim s.start_bin [ none ↦ s.pair.active_id | some b ↦ b ];
  end_bin = s.pair.active_id;
  arrays = s.arrays_entered;
}

direction_of : DlmmPair → Bool → Direction
direction_of pair swap_for_y = record {
  swap_for_y = swap_for_y;
  with_orders = supports_limit_orders pair;
  on_input = fee_on_input pair swap_for_y;
}

start_of : DlmmPair → ℕ → WalkState
start_of pair amount = record {
  pair = pair;
  left = amount;
  out_total = 0;
  fee_total = 0;
  arrays_entered = 0;
  start_bin = none;
}

pub swap_exact_in :
    DlmmBins → Bool → (amount : ℕ) → (now : ℤ) → (slot max_arrays : ℕ) → Walked DlmmQuote
swap_exact_in bins swap_for_y amount now slot max_arrays =
    let pair = update_references now bins.pair in
    if not (is_parsed bins.pair && is_tradable bins.pair now slot)
    then err not_tradable
    else and_then
        (walk_arrays max_arrays bins (direction_of pair swap_for_y) (start_of pair amount))
        (λ done. ok (quote_of done))
