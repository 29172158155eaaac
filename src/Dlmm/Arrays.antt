-- ===== src/Dlmm/Arrays.antt =====
-- quote/dlmm.rs: the bin arrays that hold liquidity, in the order a swap walks them. `liquid` is the
-- ascending list of their indices; building it from the bitmaps' bits is not modelled.
use flow_trades_solana.Base.{
  ℕ, zero, suc, ◌+◌, ◌-◌, ◌*◌, ◌/◌, Bool, true, false, not, ◌&&◌, Option, none, some, List, [], ◌∷◌,
  if◌then◌else◌, ◌>>=◌, get_elem?, checked_sub,
}
use flow_trades_solana.Base.Int.{ℤ, pos, negsuc, ◌+ℤ◌, ◌-ℤ◌, leb_ℤ, ltb_ℤ}
use flow_trades_solana.Dlmm.Bin.{Bin}

abbrev pub bins_per_array : ℕ
bins_per_array = 70

abbrev pub bitmap_size : ℕ
bitmap_size = 512

pub record BinArray : Type 0 where
  pub index : ℤ
  pub bins : List Bin

unfoldable pub lower_bin_id : BinArray → ℤ
lower_bin_id a = elim a.index [
  | pos n ↦ pos (n * bins_per_array)
  | negsuc n ↦ negsuc (n * bins_per_array + (bins_per_array - 1))
]

-- `div_euclid`: -(n + 1) over 70 is -(n / 70 + 1).
unfoldable pub array_index : ℤ → ℤ
array_index (pos n) = pos (n / bins_per_array)
array_index (negsuc n) = negsuc (n / bins_per_array)

-- The standard library's `partition_point`, on a list where the test holds on a first part only.
unfoldable pub partition_point : (ℤ → Bool) → List ℤ → ℕ
partition_point holds [] = 0
partition_point holds (x ∷ xs) = if holds x then suc (partition_point holds xs) else 0

unfoldable pub next_liquid : List ℤ → ℤ → Bool → Option ℤ
unfolding partition_point
next_liquid liquid from true =
    checked_sub (partition_point (λ x. leb_ℤ x from) liquid) 1 >>= get_elem? liquid
next_liquid liquid from false = get_elem? liquid (partition_point (λ x. ltb_ℤ x from) liquid)

unfoldable pub needs_extension : ℤ → Bool
needs_extension (pos n) = not (ltb_ℤ (pos n) (pos bitmap_size))
needs_extension (negsuc n) = not (ltb_ℤ (pos n) (pos bitmap_size))

abbrev pub beyond : Bool → ℤ → ℤ
beyond swap_for_y i = if swap_for_y then i -ℤ pos 1 else i +ℤ pos 1

-- `while out.len() < take`, with `take` left.
arrays_from : ℕ → List ℤ → ℤ → Bool → Bool → List ℤ
arrays_from zero liquid from has_extension swap_for_y = []
arrays_from (suc take) liquid from has_extension swap_for_y =
    if needs_extension from && not has_extension
    then []
    else elim (next_liquid liquid from swap_for_y) [
      | none ↦ []
      | some i ↦ i ∷ arrays_from take liquid (beyond swap_for_y i) has_extension swap_for_y
    ]

pub arrays_for_swap : List ℤ → ℤ → Bool → Bool → ℕ → List ℤ
arrays_for_swap liquid active_id has_extension swap_for_y take =
    arrays_from take liquid (array_index active_id) has_extension swap_for_y

-- `DlmmBins::array`: the loaded array with this index.
unfoldable pub array : List BinArray → ℤ → Option BinArray
array [] i = none
array (a ∷ rest) i = if leb_ℤ a.index i && leb_ℤ i a.index then some a else array rest i
