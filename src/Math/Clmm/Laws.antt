-- ===== src/Math/Clmm/Laws.antt =====
-- quote/math.rs: theorems on the single-range formula.
use flow_trades_solana.Base.{
  ℕ, ◌+◌, ◌-◌, ◌*◌, ◌/◌, ◌≤◌, ◌<◌, ◌≡◌, ap, Bool, true, false, some, u64_max, u128_max, inl, inr,
  Option-cases, min, arith, div_ceil, if◌then◌else◌,
}
use flow_trades_solana.Base.Arith.{le-div_iff, div-le_self_of_le, div_ceil-le_iff, lt-div-suc-mul}
use flow_trades_solana.Math.Clmm.{
  q64, curve_in, curve_out, virtual_reserves, compute_clmm_output, compute_clmm_input,
}

abbrev pub reserve_in : ℕ → ℕ → Bool → ℕ
reserve_in p l a_to_b = if a_to_b then l * q64 / p else l * p / q64

abbrev pub reserve_out : ℕ → ℕ → Bool → ℕ
reserve_out p l a_to_b = if a_to_b then l * p / q64 else l * q64 / p

abbrev pub after_fee : ℕ → ℕ → ℕ
after_fee amount fee = amount * (10_000 - min fee 10_000) / 10_000

curve_out_inversion :
    (r_in r_out x : ℕ) {o : ℕ}
    → 0 < r_in
    → curve_out r_in r_out x ≡ some o
    → (o ≡ r_out - r_out * r_in / (r_in + x)) × (o ≤ u64_max)
unfolding curve_out
curve_out_inversion r_in r_out x p h = ground arith

-- What a quote rests on, with the curve's formula shut.
pub record OutputParts (p l amount fee : ℕ) (d : Bool) (o : ℕ) : Type 0 where
  pub price_pos : 0 < p
  pub liquidity_pos : 0 < l
  pub amount_pos : 0 < amount
  pub fee_lt : fee < 10_000
  pub fits : amount * (10_000 - min fee 10_000) ≤ u128_max
  pub input_pos : 0 < after_fee amount fee
  pub reserves : virtual_reserves p l d ≡ some (reserve_in p l d, reserve_out p l d)
  pub in_pos : 0 < reserve_in p l d
  pub out_pos : 0 < reserve_out p l d
  pub priced : curve_out (reserve_in p l d) (reserve_out p l d) (after_fee amount fee) ≡ some o

pub output_parts :
    (p l amount fee : ℕ) (d : Bool) {o : ℕ}
    → compute_clmm_output p l amount fee d ≡ some o
    → OutputParts p l amount fee d o
unfolding compute_clmm_output virtual_reserves
output_parts p l amount fee true h = ground arith
output_parts p l amount fee false h = ground arith

pub output_inversion :
    (p l amount fee : ℕ) (d : Bool) {o : ℕ}
    → compute_clmm_output p l amount fee d ≡ some o
    → (0 < reserve_in p l d)
      × (o
          ≡ reserve_out p l d
            - reserve_out p l d * reserve_in p l d / (reserve_in p l d + after_fee amount fee))
      × (o ≤ u64_max)
output_inversion p l amount fee d h =
    let parts = output_parts p l amount fee d h in
    let (e, le) =
      curve_out_inversion (reserve_in p l d) (reserve_out p l d) (after_fee amount fee) parts.in_pos
        parts.priced in
    (parts.in_pos, e, le)

curve_in_inversion :
    (r_in r_out o : ℕ) {pre : ℕ}
    → curve_in r_in r_out o ≡ some pre
    → (o < r_out) × (pre ≡ div_ceil (r_in * o) (r_out - o))
unfolding curve_in
curve_in_inversion r_in r_out o h = ground arith

pub input_inversion :
    (p l o fee : ℕ) (d : Bool) {a : ℕ}
    → compute_clmm_input p l o fee d ≡ some a
    → (0 < p)
      × (0 < reserve_in p l d)
      × (0 < o)
      × (o < reserve_out p l d)
      × (fee < 10_000)
      × (a
          ≡ div_ceil
              (div_ceil (reserve_in p l d * o) (reserve_out p l d - o) * 10_000)
              (10_000 - fee))
unfolding compute_clmm_input
input_inversion p l o fee true h = elim (Option-cases (curve_in (l * q64 / p) (l * p / q64) o)) [
  | inl refused ↦ ground arith
  | inr (pre, e) ↦ ground (arith, curve_in_inversion (l * q64 / p) (l * p / q64) o e)
]
input_inversion p l o fee false h = elim (Option-cases (curve_in (l * p / q64) (l * q64 / p) o)) [
  | inl refused ↦ ground arith
  | inr (pre, e) ↦ ground (arith, curve_in_inversion (l * p / q64) (l * q64 / p) o e)
]

-- A quoted output is at most the virtual reserve it is taken from, and what is left of that
-- reserve times the grown other one covers the old product up to the rounding of one division.
pub compute_clmm_output_bounds :
    (p l amount fee : ℕ) (d : Bool) {o : ℕ}
    → compute_clmm_output p l amount fee d ≡ some o
    → (o ≤ reserve_out p l d)
      × (reserve_in p l d * reserve_out p l d
          < (reserve_out p l d - o + 1) * (reserve_in p l d + after_fee amount fee))
compute_clmm_output_bounds p l amount fee d {o} h =
    let (pi, e, _) = output_inversion p l amount fee d h in
    let r = reserve_out p l d in
    let i = reserve_in p l d in
    let x = after_fee amount fee in
    let left = r * i / (i + x) in
    let le : left ≤ r = div-le_self_of_le r (r * i) (i + x) (omega arith) (omega arith) in
    let same : r - o ≡ left = omega arith in
    (omega arith, rw same (omega (arith, lt-div-suc-mul (r * i) (i + x) (omega arith))))

-- The exact-output quote is enough: the exact-input quote of the amount it asks for, or of any
-- larger one, yields at least the wanted output.
pub compute_clmm_input_covers :
    (p l o fee b : ℕ) (d : Bool) {a q : ℕ}
    → compute_clmm_input p l o fee d ≡ some a
    → compute_clmm_output p l b fee d ≡ some q
    → a ≤ b
    → o ≤ q
compute_clmm_input_covers p l o fee b d {a} {q} h k le =
    let (_, pi, po, lt, lf, ea) = input_inversion p l o fee d h in
    let (_, eq, _) = output_inversion p l b fee d k in
    let r = reserve_out p l d in
    let i = reserve_in p l d in
    let x = after_fee b fee in
    let pre = div_ceil (i * o) (r - o) in
    let m : 10_000 - min fee 10_000 ≡ 10_000 - fee = omega arith in
    let asked : pre * 10_000 ≤ b * (10_000 - fee) =
      (div_ceil-le_iff (pre * 10_000) (10_000 - fee) b (omega arith)).0 (omega arith) in
    let enough : pre ≤ x =
      (le-div_iff pre (b * (10_000 - min fee 10_000)) 10_000 (omega arith)).1
        (omega (arith, ap (λ (t : ℕ). b * t) m)) in
    let paid : i * o ≤ x * (r - o) = (div_ceil-le_iff (i * o) (r - o) x (omega arith)).0 enough in
    let back : (r - o) + o ≡ r = omega arith in
    let left : r * i / (i + x) ≤ r - o =
      div-le_self_of_le (r - o) (r * i) (i + x) (omega arith)
        (omega (arith, paid, ap (λ (t : ℕ). t * i) back)) in
    rw eq (omega arith)
