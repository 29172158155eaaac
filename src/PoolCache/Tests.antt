-- ===== src/PoolCache/Tests.antt =====
-- pool/cache.rs: a pool that fails ten times.
use flow_trades_solana.Base.{ℕ, ◌≡◌, leb, arith}
use flow_trades_solana.PoolCache.{PoolCache, new, reset_failure, is_dormant, dormant_threshold}
use flow_trades_solana.PoolCache.Laws.{fail_times, dormant_after}

abbrev cache : PoolCache ℕ
cache = new 5_000

dormant_after_example :
    is_dormant (fail_times 10 7 (reset_failure 7 cache)) 7 ≡ leb dormant_threshold 10
dormant_after_example = dormant_after 10 7 cache (omega arith)
