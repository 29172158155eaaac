-- ===== src/DammV2/Parts.antt =====
-- quote/damm_v2.rs: what a swap rests on, on either curve.
use flow_trades_solana.Base.{
  ℕ, ◌-◌, ◌≤◌, ◌≡◌, Bool, some, arith, inl, inr, Option-cases, Bool-cases,
}
use flow_trades_solana.DammV2.{
  fee_on_input, DammCurve, DammQuote, fee_of, curve_swap, swap_exact_in,
}

-- What a swap rests on: the curve's step for an input that is at most the amount, and an output
-- that is at most the step's.
pub record SwapParts (c : DammCurve) (d : Bool) (amount : ℕ) (q : DammQuote) : Type 0 where
  pub actual : ℕ
  pub raw : ℕ
  pub actual_le : actual ≤ amount
  pub out_le : q.amount_out ≤ raw
  pub step : curve_swap c d actual ≡ some (q.next_sqrt_price, raw)

module _ (c : DammCurve) (f mode : ℕ) (d : Bool) (amount : ℕ) where
  pub swap_parts :
      {q : DammQuote} → swap_exact_in c f mode d amount ≡ some q → SwapParts c d amount q
  unfolding swap_exact_in
  swap_parts h = elim (Bool-cases (fee_on_input mode d)) [
    | inl on_input ↦ elim (Option-cases (fee_of f amount)) [
      | inl e ↦ ground arith
      | inr (fee, e) ↦ elim (Option-cases (curve_swap c d (amount - fee))) [
        | inl e1 ↦ ground arith
        | inr ((next, out), e1) ↦ record {
          actual = amount - fee;
          raw = out;
          actual_le = ground arith;
          out_le = ground arith;
          step = ground arith;
        }
      ]
    ]
    | inr on_output ↦ elim (Option-cases (curve_swap c d amount)) [
      | inl e ↦ ground arith
      | inr ((next, out), e) ↦ elim (Option-cases (fee_of f out)) [
        | inl e1 ↦ ground arith
        | inr (fee, e1) ↦ record {
          actual = amount;
          raw = out;
          actual_le = ground arith;
          out_le = ground arith;
          step = ground arith;
        }
      ]
    ]
  ]
