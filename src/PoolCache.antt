-- ===== src/PoolCache.antt =====
-- pool/cache.rs: the cache of pool states with its time to live, and the count of failures of each pool. The
-- state of a pool is a parameter, the clock an argument in one unit throughout; a concurrent map is a
-- function, and each operation runs alone. The listings and counts of all entries are not modelled.
mod Tests
pub mod Laws
use flow_trades_solana.Base.{
  ℕ, ◌+◌, ◌-◌, ◌%◌, ◌^◌, Bool, true, false, Option, none, some, ltb, leb, ◌==◌, if◌then◌else◌,
  ◌>>=◌,
}
use flow_trades_solana.Base.Bytes.{Pubkey}

abbrev pub dormant_threshold : ℕ
dormant_threshold = 10

pub record CachedPool (PoolState : Type 0) : Type 0 where
  pub state : PoolState
  pub fetched_at : ℕ

pub record PoolCache (PoolState : Type 0) : Type 0 where
  pub inner : Pubkey → Option (CachedPool PoolState)
  pub ttl : ℕ
  pub failures : Pubkey → Option ℕ

-- The count is a `u32` that wraps around.
abbrev counted : Option ℕ → ℕ
counted none = 1
counted (some n) = (n + 1) % 2 ^ 32

module _ {PoolState : Type 0} where
  pub new : (ttl : ℕ) → PoolCache PoolState
  new ttl = record { inner = λ _. none; ttl = ttl; failures = λ _. none }

  -- `elapsed` is zero where the clock is behind.
  pub get : PoolCache PoolState → Pubkey → (now : ℕ) → Option PoolState
  get c address now =
      c.inner address >>= λ e. if ltb c.ttl (now - e.fetched_at) then none else some e.state

  pub with_state {ℓ} :
      {R : Type ℓ}
      → PoolCache PoolState
      → Pubkey
      → (PoolState → (age : ℕ) → R)
      → (now : ℕ) → Option R
  with_state c address f now = c.inner address >>= λ e.
      if ltb c.ttl (now - e.fetched_at) then none else some (f e.state (now - e.fetched_at))

  pub get_with_age : PoolCache PoolState → Pubkey → (now : ℕ) → Option ℕ
  get_with_age c address now = c.inner address >>= λ e. some (now - e.fetched_at)

  pub insert : Pubkey → PoolState → (now : ℕ) → PoolCache PoolState → PoolCache PoolState
  insert address state now c =
      let entry : CachedPool PoolState = record { state = state; fetched_at = now } in
      record c { inner = λ k. if k == address then some entry else c.inner k }

  pub record_failure : Pubkey → PoolCache PoolState → PoolCache PoolState
  record_failure address c = record c {
    failures = λ k. if k == address then some (counted (c.failures address)) else c.failures k;
  }

  pub reset_failure : Pubkey → PoolCache PoolState → PoolCache PoolState
  reset_failure address c = record c { failures = λ k. if k == address then none else c.failures k }

  pub is_dormant : PoolCache PoolState → Pubkey → Bool
  is_dormant c address = elim (c.failures address) [
    | none ↦ false
    | some n ↦ leb dormant_threshold n
  ]

  pub remove : Pubkey → PoolCache PoolState → PoolCache PoolState
  remove address c = record c {
    inner = λ k. if k == address then none else c.inner k;
    failures = λ k. if k == address then none else c.failures k;
  }
