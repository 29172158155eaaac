-- ===== src/PoolCache/Laws.antt =====
-- pool/cache.rs: theorems on expiry and on dormant pools.
use flow_trades_solana.Base.{
  ℕ, zero, suc, ◌-◌, ◌^◌, ◌<◌, ◌≡◌, refl, false, none, some, leb, ◌==◌, if◌then◌else◌, arith,
}
use flow_trades_solana.Base.Bytes.{Pubkey}
use flow_trades_solana.PoolCache.{
  PoolCache, dormant_threshold, get, insert, record_failure, reset_failure, is_dormant,
}

module _ {PoolState : Type 0} where
  -- Failures in a row.
  abbrev pub fail_times : ℕ → Pubkey → PoolCache PoolState → PoolCache PoolState
  fail_times zero x c = c
  fail_times (suc n) x c = record_failure x (fail_times n x c)

  failures_counted :
      (n : ℕ) (x : Pubkey) (c : PoolCache PoolState)
      → n < 2 ^ 32
      → (fail_times n x (reset_failure x c)).failures x ≡ (if n == 0 then none else some n)
  unfolding record_failure reset_failure
  failures_counted zero x c h = ground arith
  failures_counted (suc n) x c h =
      let before = failures_counted n x c (omega arith) in ground (arith, before)

  -- After a reset and fewer than 2^32 failures in a row, a pool is dormant exactly when they are ten or more.
  pub dormant_after :
      (n : ℕ) (x : Pubkey) (c : PoolCache PoolState)
      → n < 2 ^ 32
      → is_dormant (fail_times n x (reset_failure x c)) x ≡ leb dormant_threshold n
  unfolding is_dormant
  dormant_after n x c h = ground (arith, failures_counted n x c h)

  -- A state put in the cache is answered until its time to live is over, and no other pool's answer changes.
  pub insert-get :
      (c : PoolCache PoolState) (x y : Pubkey) (state : PoolState) (now later : ℕ)
      → get (insert x state now c) y later
        ≡ (if y == x then (if leb (later - now) c.ttl then some state else none) else get c y later)
  unfolding get insert
  insert-get c x y state now later = ground arith

pub insert_elsewhere :
    {PoolState : Type 0} (k : Pubkey) (st : PoolState) (now : ℕ) (c : PoolCache PoolState)
    (x : Pubkey)
    → (x == k) ≡ false
    → (insert k st now c).inner x ≡ c.inner x
unfolding insert
insert_elsewhere k st now c x h = rw h refl
