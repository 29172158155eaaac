-- ===== src/Byreal/Inputs/Laws.antt =====
-- quote/byreal_fee.rs: theorems on the published inputs.
use flow_trades_solana.Base.{
  ℕ, Bool, true, false, none, refl, leb, length, Option, some, List, ◌≡◌, ◌≢◌, ◌>>=◌, arith,
}
use flow_trades_solana.Base.Bytes.{Pubkey}
use flow_trades_solana.Base.Int.{ℤ}
use flow_trades_solana.Registry.{member, addresses_of}
use flow_trades_solana.Registry.Laws.{member-push_missing}
use flow_trades_solana.Byreal.{is_dynamic, ByrealFee}
use flow_trades_solana.Byreal.Dynamic.{dynamic_fee_rate}
use flow_trades_solana.Byreal.Inputs.{
  Account, ByrealPool, Published, fee_of, parse_inputs, put_inputs, register, publish_dyn_inputs,
  swap_fee_ppm, pools_reading_oracle, parse,
}

-- After its accounts were published, a dynamic-fee pool is charged by these accounts alone: by the rate of the
-- inputs parsed from them, and it is unavailable where they do not parse or the rate is refused, whatever was
-- published before.
pub publish-swap_fee_ppm :
    (p : Published) (s : ByrealPool) (accounts : List (Option Account)) (z : Bool)
    (amount fee_base : ℕ) (now : ℤ)
    → is_dynamic s.fee ≡ true
    → swap_fee_ppm
        ((publish_dyn_inputs (some s) accounts p).1)
        (some s)
        s.pool
        z
        amount
        fee_base
        now
      ≡ fee_of (
          parse_inputs s.fee accounts >>= λ inp.
          dynamic_fee_rate s.fee fee_base s.sqrt_price_x64 inp z amount now)
unfolding publish_dyn_inputs swap_fee_ppm put_inputs
publish-swap_fee_ppm p s accounts z amount b now h = rw h (ground arith)

-- Publishing a pool registers it with both of its oracles, and changes no other pool's inputs.
publish_registers :
    (p : Published) (s : ByrealPool) (accounts : List (Option Account)) (other : Pubkey)
    → other ≢ s.pool
    → let after = publish_dyn_inputs (some s) accounts p in
      (member s.pool (addresses_of (pools_reading_oracle (after.1) s.fee.oracle_0)) ≡ true)
      × (member s.pool (addresses_of (pools_reading_oracle (after.1) s.fee.oracle_1)) ≡ true)
      × (after.1.dyn_inputs other ≡ p.dyn_inputs other)
unfolding publish_dyn_inputs put_inputs pools_reading_oracle register addresses_of
publish_registers p s accounts other h =
    let first = register s.pool s.fee.oracle_0 p.oracle_pools in
    let m0 = member-push_missing s.pool s.pool (p.oracle_pools s.fee.oracle_0) in
    let m1 = member-push_missing s.pool s.pool (first s.fee.oracle_1) in
    let m2 = member-push_missing s.pool s.pool (first s.fee.oracle_0) in ground (arith, m0, m1, m2)

abbrev answers : Option ByrealFee → Bool
answers none = false
answers (some f) = true

answer_of : (o : Option ByrealFee) → answers o ≡ true → (f : ByrealFee) × (o ≡ some f)
answer_of none h = absurd (ground arith)
answer_of (some f) h = (f, refl)

parse-answers :
    (sponsored_price_account : List ℕ → Pubkey) (d : List ℕ)
    → leb 1_176 (length d) ≡ true
    → answers (parse sponsored_price_account d) ≡ true
unfolding parse
parse-answers sponsored_price_account d h = ground (arith, h)

pub parse_long :
    (sponsored_price_account : List ℕ → Pubkey) (d : List ℕ)
    → leb 1_176 (length d) ≡ true
    → (f : ByrealFee) × (parse sponsored_price_account d ≡ some f)
parse_long sponsored_price_account d h =
    answer_of (parse sponsored_price_account d) (parse-answers sponsored_price_account d h)
