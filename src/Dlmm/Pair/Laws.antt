-- ===== src/Dlmm/Pair/Laws.antt =====
-- quote/dlmm.rs: theorems on the fee rate of a pair.
use flow_trades_solana.Base.{ℕ, ◌≤◌, ◌≡◌, some, arith, inl, inr, Option-cases}
use flow_trades_solana.Dlmm.Pair.{
  DlmmPair, base_fee_rate, variable_fee_rate, total_fee_rate, max_fee_rate,
}

pub total_fee_rate-le : (p : DlmmPair) {r : ℕ} → total_fee_rate p ≡ some r → r ≤ max_fee_rate
unfolding total_fee_rate
total_fee_rate-le p h = elim (Option-cases (base_fee_rate p)) [
  | inl e ↦ ground arith
  | inr (b, e) ↦ elim (Option-cases (variable_fee_rate p)) [
    | inl e1 ↦ ground arith
    | inr (v, e1) ↦ ground arith
  ]
]
