-- ===== src/Registry/Tests.antt =====
-- pool/registry.rs: a registry of one pool.
use flow_trades_solana.PoolType
use flow_trades_solana.Registry.{PoolEntry, empty, add, remove}
use flow_trades_solana.Registry.Laws.{
  Consistent, empty-Consistent, add-Consistent, remove-Consistent,
}

abbrev entry : PoolEntry
entry = record { address = 7; pool_type = PoolType.raydium_cpmm; mint_a = 5; mint_b = 3 }

add-Consistent_example : Consistent (add entry empty)
add-Consistent_example = add-Consistent entry empty empty-Consistent

remove-Consistent_example : Consistent (remove 7 (add entry empty))
remove-Consistent_example =
    remove-Consistent 7 (add entry empty) (add-Consistent entry empty empty-Consistent)
