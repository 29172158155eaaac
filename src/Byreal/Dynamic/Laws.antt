-- ===== src/Byreal/Dynamic/Laws.antt =====
-- quote/byreal_fee.rs: theorems on the fee that follows the oracle.
use flow_trades_solana.Base.{
  ℕ, ◌+◌, ◌-◌, ◌*◌, ◌≤◌, ◌<◌, ◌≡◌, max, Bool, true, not, none, some, ltb, ◌==◌, if◌then◌else◌, ◌>>◌,
  refuse_if, div_ceil, u128_max, arith, inl, inr, Option-cases, answered,
}
use native.Mathlib.Nat.{div-le_self}
use flow_trades_solana.Base.Int.{ℤ, pos, ◌+ℤ◌, ◌-ℤ◌, ltb_ℤ, pos_part}
use flow_trades_solana.Clmm.Wide.{mul_div_ceil, mul_div_floor}
use flow_trades_solana.Clmm.Wide.Laws.{mul_div_ceil_lem}
use flow_trades_solana.Clmm.Price.{q64}
use flow_trades_solana.Byreal.{ByrealFee, fee_rate_denominator, token1_is_quote}
use flow_trades_solana.Byreal.Dynamic.{
  PythPrice, DynInputs, apart, arbitrage_fee, usable, price_index, index_ratio, fit_signed,
  pool_price, trade_size, balances, imbalance_fee, dynamic_fee_rate,
}

mul_div_floor-fits : (a b d : ℕ) {q : ℕ} → mul_div_floor a b d ≡ some q → q ≤ u128_max
unfolding mul_div_floor
mul_div_floor-fits a b d h = ground (arith, div-le_self (a * b) d)

price_index-fits : (p q : PythPrice) (d e : ℕ) {i : ℕ} → price_index p q d e ≡ some i → i ≤ u128_max
unfolding price_index
price_index-fits p q d e h =
    let (s, _, h1) = answered (fit_signed 32 (p.exponent -ℤ q.exponent)) h in
    let (n, _, h2) = answered (fit_signed 32 (s +ℤ (pos e -ℤ pos d))) h1 in
    let ((num, den), _, h3) = answered (index_ratio (pos_part p.price) (pos_part q.price) n) h2 in
    mul_div_floor-fits num q64 den h3

usable_positive :
    (p : PythPrice) (now : ℤ) {u : Unit {0}} → usable p now ≡ some u → ltb_ℤ (pos 0) p.price ≡ true
unfolding usable
usable_positive p now h = ground arith

-- The gap between the pool's price and the oracle's, in millionths of the oracle's, rounded up.
abbrev pub gap_ppm : (p_0 p_index : ℕ) → ℕ
gap_ppm p_0 p_index = div_ceil (apart p_0 p_index * fee_rate_denominator) p_index

arbitrage_fee_lem :
    (p_0 p_index buffer fee_base : ℕ) {r : ℕ}
    → p_0 ≤ u128_max
    → p_index ≤ u128_max
    → arbitrage_fee p_0 p_index buffer fee_base ≡ some r
    → (0 < p_index) × (r ≡ gap_ppm p_0 p_index - (buffer + fee_base))
unfolding arbitrage_fee
arbitrage_fee_lem p i b fb a0 a1 h =
    let whole = mul_div_ceil_lem (apart p i) fee_rate_denominator i (omega arith) (omega arith) in
    elim (Option-cases (mul_div_ceil (apart p i) fee_rate_denominator i)) [
      | inl e ↦ ground arith
      | inr (g, e) ↦ ground (arith, whole)
    ]

total_lem :
    (a b m : ℕ) {r : ℕ}
    → (refuse_if (not (m == 0))
        >> (if ltb fee_rate_denominator (a + b) then none else some (a + b)))
      ≡ some r
    → (r ≡ a + b) × (r ≤ fee_rate_denominator)
total_lem a b m h = ground arith

-- When the oracle-driven rate is answered, both oracle prices are positive, and the rate is the larger of the
-- base and the gap between the pool's price and the oracle's less its buffer, and at most the whole.
pub dynamic_fee_rate_lem :
    (f : ByrealFee) (fee_base sqrt_price : ℕ) (inp : DynInputs) (z : Bool) (amount : ℕ) (now : ℤ)
    {r : ℕ}
    → dynamic_fee_rate f fee_base sqrt_price inp z amount now ≡ some r
    → (ltb_ℤ (pos 0) inp.price_0.price ≡ true)
      × (ltb_ℤ (pos 0) inp.price_1.price ≡ true)
      × (p_0 : ℕ) × (p_index : ℕ) × (pool_price sqrt_price ≡ some p_0)
      × (price_index inp.price_0 inp.price_1 f.decimals_0 f.decimals_1 ≡ some p_index)
      × (0 < p_index)
      × (r ≡ max fee_base (gap_ppm p_0 p_index - f.arbitrage_fee_buffer_ppm))
      × (r ≤ fee_rate_denominator)
unfolding dynamic_fee_rate pool_price
dynamic_fee_rate_lem f b s inp z amount now {r = r} h =
    let token1 = token1_is_quote f in
    let input_is_quote = if token1 then not z else z in
    let (_, e0, h0) = answered (usable inp.price_0 now) h in
    let (_, e1, h1) = answered (usable inp.price_1 now) h0 in
    let (i, e2, h2) = answered (price_index inp.price_0 inp.price_1 f.decimals_0 f.decimals_1) h1 in
    let (p, e3, h3) = answered (pool_price s) h2 in
    let (_, _, h4) = answered (trade_size f p amount input_is_quote) h3 in
    let ((v, q), _, h5) = answered (balances inp p token1) h4 in
    let (a, e6, h6) = answered (arbitrage_fee p i f.arbitrage_fee_buffer_ppm b) h5 in
    let (m, _, h7) =
      answered (imbalance_fee v q f.imbalance_fee_base f.imbalance_fee_x input_is_quote) h6 in
    let small : p ≤ u128_max = ground arith in
    let fits = price_index-fits inp.price_0 inp.price_1 f.decimals_0 f.decimals_1 e2 in
    let (positive, a_lem) = arbitrage_fee_lem p i f.arbitrage_fee_buffer_ppm b small fits e6 in
    let (sum, whole) = total_lem a b m h7 in
    let larger : r ≡ max b (gap_ppm p i - f.arbitrage_fee_buffer_ppm) = omega (arith, sum, a_lem) in
    (
      usable_positive inp.price_0 now e0,
      usable_positive inp.price_1 now e1,
      p,
      i,
      e3,
      e2,
      positive,
      larger,
      whole,
    )
