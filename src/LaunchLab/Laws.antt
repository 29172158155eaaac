-- ===== src/LaunchLab/Laws.antt =====
-- quote/launchlab.rs: theorems on quotes and round trips.
use flow_trades_solana.Base.{
  ℕ, ◌+◌, ◌-◌, ◌*◌, ◌/◌, ◌≤◌, ◌<◌, ◌≡◌, some, arith, inl, inr, Option-cases, div_ceil,
}
use flow_trades_solana.Base.Arith.{div-mul-le, div-le_self_of_le, div_ceil-mul-lt, le-div_ceil-mul}
use flow_trades_solana.LaunchLab.{
  LaunchLabCurve, LaunchLabQuote, fee_rate_denominator, total_fee, buy_exact_in, sell_exact_in,
}

abbrev pub summed_rate : LaunchLabCurve → ℕ
summed_rate c = c.protocol_fee_rate + c.platform_fee_rate + c.creator_fee_rate

pub total_fee_inversion :
    (c : LaunchLabCurve) (q : ℕ) {f : ℕ}
    → total_fee c q ≡ some f
    → f ≡ div_ceil (q * summed_rate c) fee_rate_denominator
unfolding total_fee
total_fee_inversion c q h = ground arith

-- What a buy rests on.
pub record BuyParts (c : LaunchLabCurve) (q : ℕ) (r : LaunchLabQuote) : Type 0 where
  pub fee_eq : r.fee ≡ div_ceil (q * summed_rate c) fee_rate_denominator
  pub fee_le : r.fee ≤ q
  pub base_lt : c.real_base < c.virtual_base
  pub raised_le : c.real_quote + (q - r.fee) ≤ c.total_quote_fund_raising
  pub sum_pos : 0 < c.virtual_quote + c.real_quote + (q - r.fee)
  pub out_eq :
      r.amount_out
      ≡ (c.virtual_base - c.real_base)
        * (q - r.fee)
        / (c.virtual_quote + c.real_quote + (q - r.fee))
  pub out_pos : 0 < r.amount_out
  pub sold_le : c.real_base + r.amount_out ≤ c.total_base_sell

pub buy_parts :
    (c : LaunchLabCurve) (q : ℕ) {r : LaunchLabQuote} → buy_exact_in c q ≡ some r → BuyParts c q r
unfolding buy_exact_in
buy_parts c q {r} h = elim (Option-cases (total_fee c q)) [
  | inl e ↦ ground arith
  | inr (f, e) ↦ ground (arith, total_fee_inversion c q e)
]

pub record SellParts (c : LaunchLabCurve) (b : ℕ) (r : LaunchLabQuote) : Type 0 where
  pub base_lt : c.real_base < c.virtual_base
  pub base_le : b ≤ c.real_base
  pub gross_eq :
      r.amount_out + r.fee
      ≡ (c.virtual_quote + c.real_quote) * b / (c.virtual_base - c.real_base + b)
  pub gross_le : r.amount_out + r.fee ≤ c.real_quote
  pub fee_eq : r.fee ≡ div_ceil ((r.amount_out + r.fee) * summed_rate c) fee_rate_denominator

pub sell_parts :
    (c : LaunchLabCurve) (b : ℕ) {r : LaunchLabQuote} → sell_exact_in c b ≡ some r → SellParts c b r
unfolding sell_exact_in
sell_parts c b {r} h =
    let gross = (c.virtual_quote + c.real_quote) * b / (c.virtual_base - c.real_base + b) in
    elim (Option-cases (total_fee c gross)) [
      | inl e ↦ ground arith
      | inr (f, e) ↦ ground (arith, total_fee_inversion c gross e)
    ]

buy_within :
    (c : LaunchLabCurve) (q : ℕ) {r : LaunchLabQuote}
    → BuyParts c q r
    → (r.amount_out ≤ c.virtual_base - c.real_base)
      × (r.amount_out * (c.virtual_quote + c.real_quote + (q - r.fee))
          ≤ (c.virtual_base - c.real_base) * (q - r.fee))
buy_within c q {r} b =
    let o = c.virtual_base - c.real_base in
    let l = q - r.fee in
    let i = c.virtual_quote + c.real_quote in
    rw b.out_eq
      (div-le_self_of_le o (o * l) (i + l) b.sum_pos (omega arith), div-mul-le (o * l) (i + l))

-- A quoted buy keeps both caps of the curve: the quote raised stays within the fund-raising target
-- and the base sold within the base for sale. The output is positive and at most the base left
-- on the curve, and the fee is the summed rate of the input, rounded up once, and at most the input.
pub buy_exact_in_bounds :
    (c : LaunchLabCurve) (q : ℕ) {r : LaunchLabQuote}
    → buy_exact_in c q ≡ some r
    → (c.real_quote + (q - r.fee) ≤ c.total_quote_fund_raising)
      × (c.real_base + r.amount_out ≤ c.total_base_sell)
      × (0 < r.amount_out)
      × (r.amount_out ≤ c.virtual_base - c.real_base)
      × (r.fee ≤ q)
      × (q * summed_rate c ≤ r.fee * fee_rate_denominator)
      × (r.fee * fee_rate_denominator < q * summed_rate c + fee_rate_denominator)
buy_exact_in_bounds c q {r} h =
    let b = buy_parts c q h in
    let up = le-div_ceil-mul (q * summed_rate c) fee_rate_denominator (omega arith) in
    let near = div_ceil-mul-lt (q * summed_rate c) fee_rate_denominator (omega arith) in
    (
      b.raised_le,
      b.sold_le,
      b.out_pos,
      (buy_within c q b).0,
      b.fee_le,
      omega (arith, b.fee_eq),
      omega (arith, b.fee_eq),
    )

-- The curve after a buy, as the program moves it.
abbrev pub after_buy : LaunchLabCurve → ℕ → LaunchLabQuote → LaunchLabCurve
after_buy c q r = record c {
  real_base = c.real_base + r.amount_out;
  real_quote = c.real_quote + (q - r.fee);
}

-- Selling back at once what a buy paid out returns, fee included, at most what the buy put into the
-- curve: no round trip gains.
pub buy-sell_no_gain :
    (c : LaunchLabCurve) (q : ℕ) {r s : LaunchLabQuote}
    → buy_exact_in c q ≡ some r
    → sell_exact_in (after_buy c q r) r.amount_out ≡ some s
    → s.amount_out + s.fee ≤ q - r.fee
buy-sell_no_gain c q {r} {s} h k =
    let b = buy_parts c q h in
    let t = sell_parts (after_buy c q r) r.amount_out k in
    let (le, paid) = buy_within c q b in
    let l = q - r.fee in
    let i = c.virtual_quote + c.real_quote in
    let o = c.virtual_base - c.real_base in
    let base : c.virtual_base - (c.real_base + r.amount_out) + r.amount_out ≡ o = omega arith in
    let quote : c.virtual_quote + (c.real_quote + l) ≡ i + l = omega arith in
    let gross : s.amount_out + s.fee ≡ (i + l) * r.amount_out / o =
      rw (← base, ← quote) t.gross_eq in
    rw gross (div-le_self_of_le l ((i + l) * r.amount_out) o (omega arith) (omega arith))
