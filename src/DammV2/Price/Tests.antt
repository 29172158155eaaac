-- ===== src/DammV2/Price/Tests.antt =====
-- quote/damm_v2.rs: a swap and the swap back, around price one.
use flow_trades_solana.Base.{arith, ◌≡◌, refl, true, false, some}
use flow_trades_solana.DammV2.{
  DammCurve, DammQuote, fee_on_input, fee_of, curve_swap, swap_exact_in,
}
use flow_trades_solana.DammV2.Price.{mul_div}
use flow_trades_solana.DammV2.Laws.{Moved, sold_a}

abbrev there : DammQuote
there = record { amount_out = 981; fee = 3; next_sqrt_price = 18169499513265437879 }

abbrev back : DammQuote
back = record { amount_out = 993; fee = 3; next_sqrt_price = 18445626465418591415 }

-- The compounding curve, with the fee off the output of the first swap and off the input of the second.
abbrev compounded : DammQuote
compounded = record { amount_out = 906; fee = 3; next_sqrt_price = 0 }

abbrev compounded_back : DammQuote
compounded_back = record { amount_out = 993; fee = 3; next_sqrt_price = 0 }

compounded_lem :
    swap_exact_in (DammCurve.compounding 10_000 10_000) 2_500_000 2 true 1_000 ≡ some compounded
unfolding swap_exact_in fee_on_input fee_of curve_swap mul_div
compounded_lem = refl

compounded_back_lem :
    swap_exact_in (DammCurve.compounding 11_000 9_094) 2_500_000 2 false 906 ≡ some compounded_back
unfolding swap_exact_in fee_on_input fee_of curve_swap mul_div
compounded_back_lem = refl

compounded_moved :
    Moved 1_000 compounded true
      (DammCurve.compounding 10_000 10_000)
      (DammCurve.compounding 11_000 9_094)
compounded_moved = sold_a (omega arith) (omega arith)
