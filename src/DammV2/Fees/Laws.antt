-- ===== src/DammV2/Fees/Laws.antt =====
-- quote/damm_v2.rs: theorems on the fee.
use flow_trades_solana.Base.{
  ℕ, zero, suc, ◌+◌, ◌-◌, ◌*◌, ◌/◌, ◌%◌, ◌^◌, ◌≤◌, ◌<◌, ◌≡◌, ◌≢◌, ◌⊎◌, Bool, true, false, some,
  arith, inl, inr, Option-cases, Bool-cases, ◌==◌, if◌then◌else◌, le_trans, mul-le-mul_left,
  mul-le-mul_right,
}
use flow_trades_solana.Base.Arith.{div-le_self_of_le}
use flow_trades_solana.DammV2.Price.{fee_denominator}
use flow_trades_solana.DammV2.Fees.{
  DammFees, one_q64, mul_q64, pow_loop, pow_q64, fee_in_period, scheduled_fee, base_fee_numerator,
  time_period, market_cap_period, variable_fee_numerator, total_fee_numerator, max_fee_numerator,
  basis_point_max, rate_limiter_applies,
}

mul_q64-le : (a b : ℕ) {r : ℕ} → mul_q64 a b ≡ some r → b ≤ one_q64 → r ≤ a
unfolding mul_q64
mul_q64-le a b {r} h small =
    let e : r ≡ a * b / 2 ^ 64 = ground arith in
    rw e (div-le_self_of_le a (a * b) (2 ^ 64) (omega arith) (mul-le-mul_left a small))

next-le :
    (result squared next : ℕ) (odd : Bool)
    → (if odd then mul_q64 result squared else some result) ≡ some next
    → squared ≤ one_q64
    → next ≤ result
next-le result squared next true h small = mul_q64-le result squared h small
next-le result squared next false h small = ground arith

pow_loop-le :
    (bits exp result squared : ℕ) {r : ℕ}
    → pow_loop bits exp result squared ≡ some r
    → squared ≤ one_q64
    → r ≤ result
unfolding pow_loop
pow_loop-le zero exp result squared h small = ground arith
pow_loop-le (suc bits) exp result squared {r} h small =
    elim (Option-cases (mul_q64 squared squared)) [
      | inl e ↦ elim (Option-cases (if exp % 2 == 1 then mul_q64 result squared else some result)) [
        | inl e1 ↦ ground arith
        | inr (next, e1) ↦ ground arith
      ]
      | inr (square, e) ↦
          elim (Option-cases (if exp % 2 == 1 then mul_q64 result squared else some result)) [
            | inl e1 ↦ ground arith
            | inr (next, e1) ↦
                let lower : square ≤ squared = mul_q64-le squared squared e small in
                let rest : pow_loop bits (exp / 2) next square ≡ some r = ground arith in
                let less : r ≤ next = pow_loop-le bits (exp / 2) next square rest (omega arith) in
                le_trans less (next-le result squared next (exp % 2 == 1) e1 small)
          ]
    ]

pow_q64-le : (base exp : ℕ) {r : ℕ} → pow_q64 base exp ≡ some r → r ≤ one_q64
unfolding pow_q64
pow_q64-le base exp {r} h = elim (Bool-cases (exp == 0)) [
  | inl e ↦ ground arith
  | inr e ↦ elim (Option-cases (pow_loop 19 exp one_q64 base)) [
    | inl e1 ↦ ground arith
    | inr (x, e1) ↦
        let below : (base < one_q64) × (r ≡ x) = ground arith in
        rw below.1 (pow_loop-le 19 exp one_q64 base e1 (omega arith))
  ]
]

fee_in_period-le :
    (cliff reduction period : ℕ) {r : ℕ} → fee_in_period cliff reduction period ≡ some r → r ≤ cliff
unfolding fee_in_period
fee_in_period-le cliff reduction period {r} h = elim (Bool-cases (reduction == 0)) [
  | inl e ↦ ground arith
  | inr e ↦
      let base = one_q64 - reduction * 2 ^ 64 / basis_point_max in
      elim (Option-cases (pow_q64 base period)) [
        | inl e1 ↦ ground arith
        | inr (x, e1) ↦
            let eq : r ≡ x * cliff / 2 ^ 64 = ground arith in
            let part : x * cliff ≤ cliff * one_q64 =
              omega (arith, mul-le-mul_right cliff (pow_q64-le base period e1)) in
            rw eq (div-le_self_of_le cliff (x * cliff) (2 ^ 64) (omega arith) part)
      ]
]

scheduled_fee-le :
    (f : DammFees) (elapsed : ℕ) (exponential : Bool) {r : ℕ}
    → scheduled_fee f elapsed exponential ≡ some r
    → r ≤ f.cliff_fee_numerator
unfolding scheduled_fee
scheduled_fee-le f elapsed true h = fee_in_period-le _ _ _ h
scheduled_fee-le f elapsed false h = ground arith

-- The pool's own modes: a scheduler, by time or by market cap, and the rate limiter outside its
-- window.
abbrev pub IsScheduled : DammFees → ℕ → ℕ → Bool → Type 0
IsScheduled f current activation a_to_b =
    (f.fee_scheduler_mode ≢ 2) ⊎ (rate_limiter_applies f current activation a_to_b ≡ false)

base_fee-le :
    (f : DammFees) (current activation : ℕ) (a_to_b : Bool) (amount p : ℕ) {b : ℕ}
    → IsScheduled f current activation a_to_b
    → base_fee_numerator f current activation a_to_b amount p ≡ some b
    → b ≤ f.cliff_fee_numerator
unfolding base_fee_numerator
base_fee-le f current activation a_to_b amount p {b} scheduled h =
    let timed = time_period f current activation in
    elim (Option-cases (market_cap_period f current activation p)) [
      | inl e ↦ ground (arith, scheduled_fee-le f timed (f.fee_scheduler_mode == 1) {r = b})
      | inr (period, e) ↦ ground (
        arith,
        scheduled_fee-le f timed (f.fee_scheduler_mode == 1) {r = b},
        scheduled_fee-le f period (f.fee_scheduler_mode == 4) {r = b},
      )
    ]

-- A total fee is within the cap of the pool's version, and so below the whole amount.
pub total_fee_numerator_capped :
    (f : DammFees) (current activation : ℕ) (a_to_b : Bool) (amount p : ℕ) {t : ℕ}
    → total_fee_numerator f current activation a_to_b amount p ≡ some t
    → (t ≤ max_fee_numerator f) × (t < fee_denominator)
unfolding total_fee_numerator max_fee_numerator
total_fee_numerator_capped f current activation a_to_b amount p {t} h =
    elim (Option-cases (base_fee_numerator f current activation a_to_b amount p)) [
      | inl e ↦ ground arith
      | inr (b, e) ↦ elim (Option-cases (variable_fee_numerator f)) [
        | inl e1 ↦ ground arith
        | inr (v, e1) ↦ ground arith
      ]
    ]

-- Where the rate limiter is not at work, a total fee is at most the cliff fee plus the volatility fee:
-- the schedulers, linear and exponential, by time and by market cap, only lower the cliff fee.
pub total_fee_numerator_scheduled :
    (f : DammFees) (current activation : ℕ) (a_to_b : Bool) (amount p : ℕ) {t v : ℕ}
    → IsScheduled f current activation a_to_b
    → variable_fee_numerator f ≡ some v
    → total_fee_numerator f current activation a_to_b amount p ≡ some t
    → t ≤ f.cliff_fee_numerator + v
unfolding total_fee_numerator
total_fee_numerator_scheduled f current activation a_to_b amount p {t} {v} scheduled e1 h =
    elim (Option-cases (base_fee_numerator f current activation a_to_b amount p)) [
      | inl e ↦ ground arith
      | inr (b, e) ↦ ground (arith, base_fee-le f current activation a_to_b amount p scheduled e)
    ]
