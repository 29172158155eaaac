-- ===== src/Byreal/Laws.antt =====
-- quote/byreal_fee.rs: theorems on the base rate.
use flow_trades_solana.Base.{
  ℕ, zero, suc, ◌-◌, ◌*◌, ◌/◌, ◌%◌, ◌≤◌, ◌≡◌, max, Bool, some, ◌==◌, if◌then◌else◌, checked_sub,
  div_ceil, arith, inl, inr, Option-cases, mul-le-mul_left, mul-le-mul_right,
}
use flow_trades_solana.Base.Arith.{div_ceil-le}
use flow_trades_solana.Byreal.{
  ByrealFee, fee_rate_denominator, trade_fee_rate, scaled, power, decay_fee_rate, base_fee_rate,
}

scaled-le : (a b : ℕ) → b ≤ fee_rate_denominator → scaled a b ≤ a
unfolding scaled
scaled-le a b h =
    let up : div_ceil (a * b) fee_rate_denominator ≤ a =
      div_ceil-le (a * b) fee_rate_denominator a (omega arith) (mul-le-mul_left a h) in
    omega (arith, up)

power-le : (bits exp rate base : ℕ) → base ≤ fee_rate_denominator → power bits exp rate base ≤ rate
unfolding power
power-le zero exp rate base h = ground arith
power-le (suc bits) exp rate base h =
    let square = scaled-le base base h in
    let here = scaled-le rate base h in
    let taken = if exp % 2 == 1 then scaled rate base else rate in
    let rest = power-le bits (exp / 2) taken (scaled base base) (omega (arith, square, h)) in
    ground (arith, here, rest)

-- The share of the launch fee never exceeds its start.
decay-le :
    (f : ByrealFee) (now : ℕ) {r : ℕ}
    → decay_fee_rate f now ≡ some r
    → r ≤ f.decay_init_rate * 10_000
unfolding decay_fee_rate
decay-le f now {r = r} h =
    elim (Option-cases (checked_sub fee_rate_denominator (f.decay_decrease_rate * 10_000))) [
      | inl e ↦ ground arith
      | inr (base, e) ↦
          let small : base ≤ fee_rate_denominator = ground arith in
          let intervals = (now - f.open_time) / f.decay_interval in
          let rate = power 64 intervals fee_rate_denominator base in
          let le = power-le 64 intervals fee_rate_denominator base small in
          let share : rate * f.decay_init_rate ≤ f.decay_init_rate * 10_000 * 100 =
            omega (arith, mul-le-mul_right f.decay_init_rate le) in
          let up =
            div_ceil-le (rate * f.decay_init_rate) 100 (f.decay_init_rate * 10_000) (omega arith)
              share in
          ground (arith, up)
    ]

-- The base rate is never below the pool's rate, or the configured one where it has none, and exceeds it by the
-- decaying launch fee only: it is at most the larger of that rate and the initial launch fee.
pub base_fee_rate_bounds :
    (f : ByrealFee) (config : ℕ) (zero_for_one : Bool) (now : ℕ) {r : ℕ}
    → base_fee_rate f config zero_for_one now ≡ some r
    → (trade_fee_rate f config ≤ r)
      × (r ≤ max (trade_fee_rate f config) (f.decay_init_rate * 10_000))
unfolding base_fee_rate
base_fee_rate_bounds f config z now h = elim (Option-cases (decay_fee_rate f now)) [
  | inl e ↦ ground arith
  | inr (d, e) ↦ let le = decay-le f now e in ground (arith, le)
]
