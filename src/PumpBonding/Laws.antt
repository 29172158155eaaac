-- ===== src/PumpBonding/Laws.antt =====
-- quote/pump_bonding.rs: theorems on the fee base of a buy and on round trips.
use flow_trades_solana.Base.{
  ℕ, zero, suc, ◌+◌, ◌-◌, ◌*◌, ◌/◌, ◌^◌, ◌≤◌, ◌<◌, ◌≡◌, refl, sym, ap, Option, some, List, arith,
  ◌∙◌, leb, leb→le, le→leb, inl, inr, Option-cases, Bool-cases, div_ceil, mul-le-mul_right,
  mul-le-mul_left, u64_max,
}
use mathlib.Core.Option.{some-injective}
use native.Mathlib.Nat.{mul_comm}
use flow_trades_solana.Base.Arith.{
  div-add-lt, div-lt, div-mul-le, lt-div-suc-mul, div-le_self_of_le, le-div_ceil-mul, div_ceil-le,
}
use flow_trades_solana.PumpBonding.{
  bps, FeeTier, PumpCurve, PumpQuote, ceil_bps, fee_bps, both_fees, fees, shrink, priced_in,
  buy_exact_in, quotable, sell_exact_in,
}

-- The exact fee of a rate, with nothing cut off.
abbrev pub exact_fee : ℕ → ℕ → ℕ
exact_fee amount rate = div_ceil (amount * rate) bps

abbrev pub exact_fees : ℕ → ℕ → ℕ → ℕ
exact_fees p c x = exact_fee x p + exact_fee x c

exact_fee-le : (x rate : ℕ) → rate ≤ 10_000 → exact_fee x rate ≤ x
exact_fee-le x rate h = div_ceil-le (x * rate) bps x (omega arith) (mul-le-mul_left x h)

-- With rates of at most 100 % nothing wraps.
both_fees-exact :
    (p c x : ℕ) → p ≤ 10_000 → c ≤ 10_000 → x < 2 ^ 63 → both_fees p c x ≡ exact_fees p c x
unfolding both_fees ceil_bps
both_fees-exact p c x hp hc hx = omega (arith, exact_fee-le x p hp, exact_fee-le x c hc)

module _ (p c sol_in : ℕ) (hp : p ≤ 10_000) (hc : c ≤ 10_000) (hs : sol_in < 2 ^ 62) where
  shrink_fits :
      (x : ℕ)
      → suc x ≤ sol_in
      → suc x + exact_fees p c (suc x) ≤ sol_in
      → shrink p c sol_in (suc x) ≡ some (suc x)
  unfolding shrink
  shrink_fits x h le =
      let e = both_fees-exact p c (suc x) hp hc (omega arith) in
      ground (arith, e, le→leb (suc x + exact_fees p c (suc x)) u64_max (omega arith))

  shrink_over :
      (x : ℕ)
      → suc x ≤ sol_in
      → sol_in < suc x + exact_fees p c (suc x)
      → shrink p c sol_in (suc x) ≡ shrink p c sol_in x
  unfolding shrink
  shrink_over x h lt =
      let e = both_fees-exact p c (suc x) hp hc (omega arith) in
      let small : suc x + exact_fees p c (suc x) ≤ u64_max =
        omega (arith, exact_fee-le (suc x) p hp, exact_fee-le (suc x) c hc) in
      ground (arith, e, le→leb (suc x + exact_fees p c (suc x)) u64_max small)

  -- `y` is the largest amount up to `x` that fits the budget together with its fees.
  pub record IsLargest (x y : ℕ) : Type 0 where
    pub found : shrink p c sol_in x ≡ some y
    pub le : y ≤ x
    pub fits : y + exact_fees p c y ≤ sol_in
    pub largest : (z : ℕ) → y < z → z ≤ x → sol_in < z + exact_fees p c z

  shrink_lem : (x : ℕ) → x ≤ sol_in → (y : ℕ) × IsLargest x y
  shrink_lem zero h = (
    0,
    record {
      found = unfold shrink in refl;
      le = omega arith;
      fits = omega arith;
      largest = λ z a b. absurd (omega arith);
    },
  )
  shrink_lem (suc x) h = elim (Bool-cases (leb (suc x + exact_fees p c (suc x)) sol_in)) [
    | inl e ↦
        let le = leb→le (suc x + exact_fees p c (suc x)) sol_in e in
        (
          suc x,
          record {
            found = shrink_fits x h le;
            le = omega arith;
            fits = le;
            largest = λ z a b. absurd (omega arith);
          },
        )
    | inr e ↦
        let over : sol_in < suc x + exact_fees p c (suc x) = ground arith in
        let (y, found) = shrink_lem x (omega arith) in
        (
          y,
          record {
            found = shrink_over x h over ∙ found.found;
            le = omega (arith, found.le);
            fits = found.fits;
            largest = λ z a b. elim (Bool-cases (leb z x)) [
              | inl low ↦ found.largest z a (leb→le z x low)
              | inr top ↦ let same : z ≡ suc x = ground arith in rw same over
            ];
          },
        )
  ]

  -- No amount above the first guess fits, so the search from there finds the largest of all.
  start-le : sol_in * bps / (bps + p + c) ≤ sol_in
  start-le = div-le_self_of_le sol_in (sol_in * bps) (bps + p + c) (omega arith) (omega arith)

  above_start : (z : ℕ) → sol_in * bps / (bps + p + c) < z → sol_in < z + exact_fees p c z
  above_start z h =
      let over : sol_in * bps < z * (bps + p + c) = omega (
        arith,
        lt-div-suc-mul (sol_in * bps) (bps + p + c) (omega arith),
        mul-le-mul_right (bps + p + c) h,
      ) in
      omega (
        arith,
        over,
        le-div_ceil-mul (z * p) bps (omega arith),
        le-div_ceil-mul (z * c) bps (omega arith),
      )

-- With fee rates of at most 100 % and a budget below 2^62 lamports, the search for the fee base
-- ends, and finds the largest amount that, with both rounded-up fees, is within the budget.
pub priced_in_largest :
    (p c sol_in : ℕ)
    → p ≤ 10_000
    → c ≤ 10_000
    → sol_in < 2 ^ 62
    → (y : ℕ) × (priced_in p c sol_in ≡ some y)
      × (y + exact_fees p c y ≤ sol_in)
      × ((z : ℕ) → y < z → sol_in < z + exact_fees p c z)
unfolding priced_in
priced_in_largest p c sol_in hp hc hs =
    let top = sol_in * bps / (bps + p + c) in
    let le = start-le p c sol_in hp hc hs in
    let (y, found) = shrink_lem p c sol_in hp hc hs top le in
    (
      y,
      rw (le→leb top u64_max (omega arith)) found.found,
      found.fits,
      λ z lt. elim (Bool-cases (leb z top)) [
        | inl low ↦ found.largest z lt (leb→le z top low)
        | inr high ↦ above_start p c sol_in hp hc hs z (ground arith)
      ],
    )

pub record BuyParts (tiers : Option (List FeeTier)) (c : PumpCurve) (sol_in : ℕ) (r : PumpQuote)
    : Type 0 where
  pub base : ℕ
  pub base_found : priced_in (fee_bps tiers c).0 (fee_bps tiers c).1 sol_in ≡ some base
  pub base_gt : 1 < base
  pub tokens_pos : 0 < c.virtual_token_reserves
  pub sol_pos : 0 < c.virtual_sol_reserves
  pub out_eq :
      r.amount_out ≡ (base - 1) * c.virtual_token_reserves / (c.virtual_sol_reserves + (base - 1))
  pub out_lt : r.amount_out < c.real_token_reserves
  pub fee_eq : r.fee ≡ both_fees (fee_bps tiers c).0 (fee_bps tiers c).1 base

pub buy_parts :
    (tiers : Option (List FeeTier)) (c : PumpCurve) (sol_in : ℕ) {r : PumpQuote}
    → buy_exact_in tiers c sol_in ≡ some r
    → BuyParts tiers c sol_in r
unfolding buy_exact_in quotable
buy_parts tiers c sol_in h =
    elim (Option-cases (priced_in (fee_bps tiers c).0 (fee_bps tiers c).1 sol_in)) [
      | inl e ↦ ground arith
      | inr (x, e) ↦ record {
        base = x;
        base_found = e;
        base_gt = ground arith;
        tokens_pos = ground arith;
        sol_pos = ground arith;
        out_eq = ground arith;
        out_lt = ground arith;
        fee_eq = ground arith;
      }
    ]

pub record SellParts (tiers : Option (List FeeTier)) (c : PumpCurve) (t : ℕ) (r : PumpQuote)
    : Type 0 where
  pub gross_eq : r.amount_out + r.fee ≡ t * c.virtual_sol_reserves / (c.virtual_token_reserves + t)
  pub gross_le : r.amount_out + r.fee ≤ c.real_sol_reserves
  pub out_pos : 0 < r.amount_out
  pub fee_eq : r.fee ≡ fees tiers c (r.amount_out + r.fee)

pub sell_parts :
    (tiers : Option (List FeeTier)) (c : PumpCurve) (t : ℕ) {r : PumpQuote}
    → sell_exact_in tiers c t ≡ some r
    → SellParts tiers c t r
unfolding sell_exact_in
sell_parts tiers c t h = ground arith

shrink-within :
    (p c sol_in x y : ℕ) → shrink p c sol_in x ≡ some y → 0 < y → y + both_fees p c y ≤ sol_in
unfolding shrink
shrink-within p c sol_in zero y h pos = ground arith
shrink-within p c sol_in (suc x) y h pos = ground (arith, shrink-within p c sol_in x y)

priced_in-within :
    (p c sol_in y : ℕ) → priced_in p c sol_in ≡ some y → 0 < y → y + both_fees p c y ≤ sol_in
unfolding priced_in
priced_in-within p c sol_in y h pos =
    ground (arith, shrink-within p c sol_in (sol_in * bps / (bps + p + c)) y)

-- The curve after a buy that credits `x` lamports.
abbrev pub after_buy : PumpCurve → ℕ → ℕ → PumpCurve
after_buy c x tokens = record c {
  virtual_token_reserves = c.virtual_token_reserves - tokens;
  virtual_sol_reserves = c.virtual_sol_reserves + x;
  real_token_reserves = c.real_token_reserves - tokens;
  real_sol_reserves = c.real_sol_reserves + x;
}

-- A quoted buy spends at most its budget, fee included. Selling the tokens back at once, under
-- whatever fee table, returns less than the lamports that the buy put into the curve, the sell's
-- own fee included.
pub sell_after_buy_no_gain :
    (tiers later : Option (List FeeTier)) (c : PumpCurve) (sol_in x : ℕ) {r s : PumpQuote}
    → priced_in (fee_bps tiers c).0 (fee_bps tiers c).1 sol_in ≡ some x
    → buy_exact_in tiers c sol_in ≡ some r
    → sell_exact_in later (after_buy c x r.amount_out) r.amount_out ≡ some s
    → (x + r.fee ≤ sol_in) × (s.amount_out + s.fee < x)
sell_after_buy_no_gain tiers later c sol_in x {r} {s} e h k =
    let b = buy_parts tiers c sol_in h in
    let t = sell_parts later (after_buy c x r.amount_out) r.amount_out k in
    let same : b.base ≡ x = some-injective _ _ (sym b.base_found ∙ e) in
    let vt = c.virtual_token_reserves in
    let vs = c.virtual_sol_reserves in
    let out : r.amount_out ≡ vt * (b.base - 1) / (vs + (b.base - 1)) =
      b.out_eq ∙ ap (λ (n : ℕ). n / (vs + (b.base - 1))) (mul_comm (b.base - 1) vt) in
    let below : r.amount_out < vt = rw out (div-add-lt vt (b.base - 1) vs b.tokens_pos b.sol_pos) in
    let paid : r.amount_out * (vs + (b.base - 1)) ≤ vt * (b.base - 1) =
      rw out (div-mul-le (vt * (b.base - 1)) (vs + (b.base - 1))) in
    let back : vt - r.amount_out + r.amount_out ≡ vt = omega arith in
    let gross : s.amount_out + s.fee ≡ r.amount_out * (vs + x) / vt = rw (← back) t.gross_eq in
    let base_gt = b.base_gt in
    let step : x ≡ b.base - 1 + 1 = omega arith in
    let spent : r.amount_out * (vs + x) < x * vt = rw step (omega arith) in
    (
      omega (arith, priced_in-within _ _ sol_in b.base b.base_found (omega arith), b.fee_eq),
      rw gross (div-lt (r.amount_out * (vs + x)) vt x b.tokens_pos spent),
    )
