-- ===== src/ObservedFees/Cache.antt =====
-- stream/observed_fees.rs: the observations, in the order of an association list, and the clock as an argument in
-- seconds that is past the first ten minutes. Each operation runs alone.
use flow_trades_solana.Base.{
  ℕ, ◌-◌, Option, none, some, List, [], ◌∷◌, ltb, leb, ◌==◌, ◌≡◌, if◌then◌else◌, ◌>>=◌, length,
  arith,
}
use flow_trades_solana.Base.Bytes.{Pubkey}
use flow_trades_solana.ObservedFees.{whole_bps}

abbrev pub cap : ℕ
cap = 200_000

abbrev pub Observed : Type 0
Observed = List (Pubkey × ℕ × ℕ)

-- `retain` of those later than the cutoff.
retain_after : ℕ → Observed → Observed
retain_after cutoff [] = []
retain_after cutoff ((p, fee_ppm, t) ∷ rest) =
    let later = retain_after cutoff rest in if ltb cutoff t then (p, fee_ppm, t) ∷ later else later

-- `insert`, which replaces.
put : Pubkey → ℕ → ℕ → Observed → Observed
put pool fee_ppm now [] = (pool, fee_ppm, now) ∷ []
put pool fee_ppm now ((p, f, t) ∷ rest) =
    let later = put pool fee_ppm now rest in
    if p == pool then (pool, fee_ppm, now) ∷ rest else (p, f, t) ∷ later

find : Pubkey → Observed → Option (ℕ × ℕ)
find pool [] = none
find pool ((p, f, t) ∷ rest) =
    let later = find pool rest in if p == pool then some (f, t) else later

pub record_fee : Pubkey → (fee_ppm now : ℕ) → Observed → Observed
record_fee pool fee_ppm now observed =
    put pool fee_ppm now
      (if leb cap (length observed) then retain_after (now - 600) observed else observed)

pub get_fresh_ppm : Observed → Pubkey → (max_age now : ℕ) → Option ℕ
get_fresh_ppm observed pool max_age now =
    find pool observed >>= λ (f, t). if leb (now - t) max_age then some f else none

pub get_fresh : Observed → Pubkey → (max_age now : ℕ) → Option ℕ
get_fresh observed pool max_age now =
    get_fresh_ppm observed pool max_age now >>= λ ppm. some (whole_bps ppm)

find-put :
    (pool x fee_ppm now : ℕ) (observed : Observed)
    → find x (put pool fee_ppm now observed)
      ≡ (if x == pool then some (fee_ppm, now) else find x observed)
unfolding find put
find-put pool x fee now [] = ground arith
find-put pool x fee now ((p, f, t) ∷ rest) = ground (arith, find-put pool x fee now rest)

-- A recorded fee is read back while it is fresh, whether or not older ones were dropped for it.
record_fee-get_fresh_ppm :
    (observed : Observed) (pool : Pubkey) (fee_ppm now later max_age : ℕ)
    → get_fresh_ppm (record_fee pool fee_ppm now observed) pool max_age later
      ≡ (if leb (later - now) max_age then some fee_ppm else none)
unfolding get_fresh_ppm record_fee
record_fee-get_fresh_ppm observed pool fee now later age = ground (
  arith,
  find-put pool pool fee now
      (if leb cap (length observed) then retain_after (now - 600) observed else observed),
)
