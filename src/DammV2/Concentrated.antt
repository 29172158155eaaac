-- ===== src/DammV2/Concentrated.antt =====
-- quote/damm_v2.rs: a swap of the concentrated curve and the swap back.
use flow_trades_solana.Base.{
  ℕ, ◌+◌, ◌-◌, ◌*◌, ◌^◌, ◌≤◌, ◌<◌, ◌≡◌, ap, sym, ◌∙◌, Bool, true, false, not, some, arith, inl, inr,
  Option-cases, mul-le-mul_right, mul-le-mul_left,
}
use native.Mathlib.Nat.{mul-pos}
use flow_trades_solana.Base.Arith.{le_of_mul-le}
use flow_trades_solana.DammV2.Price.{
  delta_a, delta_b, next_sqrt_price_from_a, next_sqrt_price_from_b, delta_a-le, delta_b-le,
  next_sqrt_price_from_a_bounds, next_sqrt_price_from_b_bounds,
}
use flow_trades_solana.DammV2.{DammCurve, DammQuote, curve_swap, swap_exact_in}
use flow_trades_solana.DammV2.Parts.{swap_parts}

-- The concentrated curve after its price moved.
abbrev pub moved : (l lo hi : ℕ) → ℕ → DammCurve
moved l lo hi p = DammCurve.concentrated l p lo hi

-- One step of the curve: the new price lies in the range and on the right side, and both the input
-- pays for the move and the output is paid for by it.
pub record SoldA (l p lo x n o : ℕ) : Type 0 where
  pub liquid : 0 < l
  pub start_pos : 0 < p
  pub end_pos : 0 < n
  pub falls : n ≤ p
  pub in_range : lo ≤ n
  pub paid : l * (p - n) ≤ x * p * n
  pub out : o * 2 ^ 128 ≤ l * (p - n)

pub record BoughtA (l p hi x n o : ℕ) : Type 0 where
  pub liquid : 0 < l
  pub start_pos : 0 < p
  pub rises : p ≤ n
  pub in_range : n ≤ hi
  pub paid : l * (n - p) ≤ x * 2 ^ 128
  pub out : o * (p * n) ≤ l * (n - p)

sell_a :
    (l p lo hi x n o : ℕ) → curve_swap (moved l lo hi p) true x ≡ some (n, o) → SoldA l p lo x n o
unfolding curve_swap
sell_a l p lo hi x n o h = elim (Option-cases (next_sqrt_price_from_a p l x)) [
  | inl e ↦ ground arith
  | inr (m, e) ↦ elim (Option-cases (delta_b m p l false)) [
    | inl e1 ↦ ground arith
    | inr (k, e1) ↦ ground (arith, next_sqrt_price_from_a_bounds p l x {n = m}, delta_b-le m p l e1)
  ]
]

buy_a :
    (l p lo hi x n o : ℕ)
    → curve_swap (moved l lo hi p) false x ≡ some (n, o)
    → BoughtA l p hi x n o
unfolding curve_swap
buy_a l p lo hi x n o h = elim (Option-cases (next_sqrt_price_from_b p l x)) [
  | inl e ↦ ground arith
  | inr (m, e) ↦ elim (Option-cases (delta_a p m l false)) [
    | inl e1 ↦ ground arith
    | inr (k, e1) ↦ ground (arith, next_sqrt_price_from_b_bounds p l x e, delta_a-le p m l e1)
  ]
]

module _ (l p lo hi f mode amount : ℕ) where
  -- A quoted sale of A moves the price down within the pool's range, and pays out no more B than
  -- the curve holds between the two prices, for an input that covers the move.
  pub swap_exact_in-SoldA :
      {q : DammQuote}
      → swap_exact_in (moved l lo hi p) f mode true amount ≡ some q
      → SoldA l p lo amount q.next_sqrt_price q.amount_out
  swap_exact_in-SoldA {q} h =
      let s = swap_parts (moved l lo hi p) f mode true amount h in
      let n = q.next_sqrt_price in
      let t = sell_a l p lo hi s.actual n s.raw s.step in
      let wider : s.actual * (p * n) ≤ amount * (p * n) = mul-le-mul_right (p * n) s.actual_le in
      let out_le = s.out_le in
      let paid : l * (p - n) ≤ amount * p * n = omega (arith, t.paid) in
      let out : q.amount_out * 2 ^ 128 ≤ l * (p - n) = omega (arith, t.out) in
      record {
        liquid = t.liquid;
        start_pos = t.start_pos;
        end_pos = t.end_pos;
        falls = t.falls;
        in_range = t.in_range;
        paid = paid;
        out = out;
      }

  pub swap_exact_in-BoughtA :
      {q : DammQuote}
      → swap_exact_in (moved l lo hi p) f mode false amount ≡ some q
      → BoughtA l p hi amount q.next_sqrt_price q.amount_out
  swap_exact_in-BoughtA {q} h =
      let s = swap_parts (moved l lo hi p) f mode false amount h in
      let n = q.next_sqrt_price in
      let t = buy_a l p lo hi s.actual n s.raw s.step in
      let actual_le = s.actual_le in
      let less : q.amount_out * (p * n) ≤ s.raw * (p * n) = mul-le-mul_right (p * n) s.out_le in
      let paid : l * (n - p) ≤ amount * 2 ^ 128 = omega (arith, t.paid) in
      let out : q.amount_out * (p * n) ≤ l * (n - p) = omega (arith, t.out) in
      record {
        liquid = t.liquid;
        start_pos = t.start_pos;
        rises = t.rises;
        in_range = t.in_range;
        paid = paid;
        out = out;
      }

sold_back :
    (l n a b x k : ℕ) → 0 < n → b ≤ a → l * a ≤ x * (n + a) * n → k * (n * (n + b)) ≤ l * b → k ≤ x
sold_back l n a b x k np ba paid got =
    let scaled : k * (n * (n + b)) * (n + a) ≤ l * b * (n + a) = mul-le-mul_right (n + a) got in
    let slope : l * (n * b) ≤ l * (n * a) = mul-le-mul_left l (mul-le-mul_left n ba) in
    let cost : l * a * (n + b) ≤ x * (n + a) * n * (n + b) = mul-le-mul_right (n + b) paid in
    le_of_mul-le k x (n * (n + b) * (n + a)) (mul-pos (mul-pos np (omega arith)) (omega arith))
      (omega arith)

-- `a` up by a purchase of `o`, `b` down by its sale.
bought_back :
    (l p a b m o : ℕ)
    → 0 < l
    → 0 < p + a
    → o * (p * (p + a)) ≤ l * a
    → b + m ≡ p + a
    → l * b ≤ o * (p + a) * m
    → b ≤ a
bought_back l p a b m o pl pos got ends paid =
    let scaled : l * b * p ≤ o * (p + a) * m * p = mul-le-mul_right p paid in
    let held : o * (p * (p + a)) * m ≤ l * a * m = mul-le-mul_right m got in
    let cross : b * p ≤ a * m = le_of_mul-le (b * p) (a * m) l pl (omega arith) in
    le_of_mul-le b a (p + a) pos (omega (arith, cross, ap (λ (t : ℕ). a * t) ends))

pub concentrated_back :
    (l p lo hi f g mode mode' amount : ℕ) (d : Bool) {q r : DammQuote}
    → swap_exact_in (moved l lo hi p) f mode d amount ≡ some q
    → swap_exact_in (moved l lo hi q.next_sqrt_price) g mode' (not d) q.amount_out ≡ some r
    → r.amount_out ≤ amount
concentrated_back l p lo hi f g mode mode' amount true {q} {r} h k =
    let n = q.next_sqrt_price in
    let m = r.next_sqrt_price in
    let t = swap_exact_in-SoldA l p lo hi f mode amount h in
    let u = swap_exact_in-BoughtA l n lo hi g mode' q.amount_out k in
    let t_paid = t.paid in
    let u_out = u.out in
    let less : m - n ≤ p - n =
      le_of_mul-le (m - n) (p - n) l t.liquid (omega (arith, t.out, u.paid)) in
    let em : n + (m - n) ≡ m = omega (arith, u.rises) in
    let ep : n + (p - n) ≡ p = omega (arith, t.falls) in
    sold_back l n (p - n) (m - n) amount r.amount_out t.end_pos less (rw ep t_paid) (rw em u_out)
concentrated_back l p lo hi f g mode mode' amount false {q} {r} h k =
    let n = q.next_sqrt_price in
    let m = r.next_sqrt_price in
    let t = swap_exact_in-BoughtA l p lo hi f mode amount h in
    let u = swap_exact_in-SoldA l n lo hi g mode' q.amount_out k in
    let en : p + (n - p) ≡ n = omega (arith, t.rises) in
    let en' : n - m + m ≡ n = omega (arith, u.falls) in
    let t_out = t.out in
    let u_paid = u.paid in
    let back =
      bought_back l p (n - p) (n - m) m q.amount_out t.liquid (omega (arith, t.start_pos))
        (rw en t_out) (en' ∙ sym en) (rw en u_paid) in
    let spent : l * (n - m) ≤ l * (n - p) = mul-le-mul_left l back in
    omega (arith, u.out, t.paid, spent)
