-- ===== src/Dbc/Laws.antt =====
-- quote/dbc.rs: theorems on a quoted buy.
use flow_trades_solana.Base.{
  ℕ, ◌+◌, ◌-◌, ◌≤◌, ◌<◌, ◌≡◌, Bool, true, some, arith, inl, inr, Option-cases, if◌then◌else◌,
}
use flow_trades_solana.Dbc.Config.{DbcCurve, DbcQuote}
use flow_trades_solana.Dbc.Fees.{fee_numerator}
use flow_trades_solana.Dbc.Walk.{quote_to_base, stop_price}
use flow_trades_solana.Dbc.Walk.Laws.{quote_to_base_bounds}
use flow_trades_solana.Dbc.{fee_of, fee_on_input, input_side, walked, output_side, swap_exact_in}

-- The part of the input that reaches the curve.
pub reaching : DbcCurve → Bool → ℕ → ℕ → ℕ
reaching c to_base amount fee = if fee_on_input c to_base then amount - fee else amount

walked_buy :
    (c : DbcCurve) (x : ℕ) {o n : ℕ}
    → walked c true x ≡ some (o, n)
    → (c.quote_reserve + x < c.config.migration_quote_threshold) × (quote_to_base c x ≡ some (o, n))
unfolding walked
walked_buy c x h = ground arith

-- Both sides of the fee, together.
sides :
    (c : DbcCurve) (d : Bool) (f a o : ℕ) {x i net fee : ℕ}
    → input_side c d f a ≡ some (x, i)
    → output_side c d f i o ≡ some (net, fee)
    → x ≡ reaching c d a fee
unfolding input_side output_side reaching
sides c d f a o h k = elim (Option-cases (fee_of f a)) [
  | inl e ↦ elim (Option-cases (fee_of f o)) [ inl e1 ↦ ground arith | inr (g, e1) ↦ ground arith ]
  | inr (g, e) ↦ elim (Option-cases (fee_of f o)) [
    | inl e1 ↦ ground arith
    | inr (g1, e1) ↦ ground arith
  ]
]

-- A quoted buy pays out something and leaves the quote reserve below the migration threshold; where it
-- starts at most at the migration price, its price rises or stays, and does not pass the migration price.
pub swap_exact_in_stays_on_curve :
    (c : DbcCurve) (amount now : ℕ) {q : DbcQuote}
    → c.sqrt_price ≤ stop_price c.config
    → swap_exact_in c true amount now ≡ some q
    → (0 < q.amount_out)
      × (c.quote_reserve + reaching c true amount q.fee < c.config.migration_quote_threshold)
      × (c.sqrt_price ≤ q.next_sqrt_price)
      × (q.next_sqrt_price ≤ stop_price c.config)
unfolding swap_exact_in
swap_exact_in_stays_on_curve c amount now le h = elim (Option-cases (fee_numerator c now true)) [
  | inl e ↦ ground arith
  | inr (f, e) ↦ elim (Option-cases (input_side c true f amount)) [
    | inl e1 ↦ ground arith
    | inr ((x, i), e1) ↦ elim (Option-cases (walked c true x)) [
      | inl e2 ↦ ground arith
      | inr ((o, n), e2) ↦ elim (Option-cases (output_side c true f i o)) [
        | inl e3 ↦ ground arith
        | inr ((net, fee), e3) ↦
            let buy = walked_buy c x e2 in
            let same = sides c true f amount o e1 e3 in
            let ends = quote_to_base_bounds c x le buy.1 in ground (arith, buy.0, same, ends)
      ]
    ]
  ]
]
