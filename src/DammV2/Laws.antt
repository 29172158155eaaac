-- ===== src/DammV2/Laws.antt =====
-- quote/damm_v2.rs: theorems on a swap of either curve and on the swap back.
use flow_trades_solana.Base.{ℕ, ◌+◌, ◌≤◌, Bool, true, false}
use flow_trades_solana.DammV2.{DammCurve, DammQuote}

-- The curve that a quoted swap leaves behind, where no reserve is worked out by the quote: the price moves on the
-- concentrated curve; on the compounding one the reserve of the input grows by at most the input, and the other
-- falls by at most the output, so that any share of the fees may stay in the pool.
pub data Moved (amount : ℕ) (q : DammQuote) : Bool → DammCurve → DammCurve → Type 0 where
  repriced :
      {d : Bool} {l p lo hi : ℕ}
      → Moved amount q d
          (DammCurve.concentrated l p lo hi)
          (DammCurve.concentrated l q.next_sqrt_price lo hi)
  sold_a :
      {a b a' b' : ℕ}
      → a' ≤ a + amount
      → b ≤ b' + q.amount_out
      → Moved amount q true (DammCurve.compounding a b) (DammCurve.compounding a' b')
  sold_b :
      {a b a' b' : ℕ}
      → b' ≤ b + amount
      → a ≤ a' + q.amount_out
      → Moved amount q false (DammCurve.compounding a b) (DammCurve.compounding a' b')

-- The curve's input and output reserves.
abbrev sides : Bool → (a b : ℕ) → ℕ × ℕ
sides true a b = (a, b)
sides false a b = (b, a)
