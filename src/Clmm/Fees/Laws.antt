-- ===== src/Clmm/Fees/Laws.antt =====
-- quote/clmm.rs: the static fee, of the three kinds of a step's fee.
use flow_trades_solana.Base.{ℕ, Bool, true, none, some, ◌≡◌, refl}
use flow_trades_solana.Base.Int.{ℤ}
use flow_trades_solana.Clmm.Ticks.{TickLayout}
use flow_trades_solana.Clmm.Fees.{ClmmPool, StepFee, new_step_fee, step, advance}

pub step_static :
    (base target liquidity spacing : ℕ) (layout : TickLayout) (a_to_b : Bool)
    → step StepFee.static base target liquidity spacing layout a_to_b
      ≡ some (record { fee = StepFee.static; rate = base; bounded = target; skipped = true })
unfolding step
step_static base target liquidity spacing layout a_to_b = refl

pub advance_static :
    (skipped : Bool) (sqrt_p next_tick_price : ℕ) (next_tick tick : ℤ) (spacing : ℕ) (a_to_b : Bool)
    → advance StepFee.static skipped sqrt_p next_tick_price next_tick tick spacing a_to_b
      ≡ some StepFee.static
unfolding advance
advance_static skipped sqrt_p next_tick_price next_tick tick spacing a_to_b = refl

pub new_step_fee_static :
    (pool : ClmmPool)
    → pool.fee_ext.dynamic_fee ≡ none
    → pool.adaptive_fee ≡ none
    → new_step_fee pool ≡ some StepFee.static
unfolding new_step_fee
new_step_fee_static pool d a = rw d (rw a refl)
