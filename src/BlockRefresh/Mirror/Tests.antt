-- ===== src/BlockRefresh/Mirror/Tests.antt =====
-- stream/block_refresh.rs: a transaction that holds a pool priced by its own account and the vault of another.
use Prim.Native.String.{String}
use text.Mathlib.Text
use flow_trades_solana.Base.{ℕ, false, Option, none, some, List, [], ◌∷◌, All, if◌then◌else◌}
use flow_trades_solana.Base.Bytes.{Pubkey}
use flow_trades_solana.PoolType
use flow_trades_solana.Registry.{PoolRegistry, PoolEntry, empty, add}
use flow_trades_solana.Registry.Laws.{Distinct}
use flow_trades_solana.AccountMirror.{new}
use flow_trades_solana.Byreal.Inputs.{Published}
use flow_trades_solana.BlockRefresh.Mirror.{Transaction, json_raw, mirror_block}
use flow_trades_solana.BlockRefresh.Mirror.Laws.{pools_of, Due, mirror_block_collects}
use flow_trades_solana.BlockRefresh.Mirror.Balances.{Faithful, mirror_block-Faithful}

-- Keys and amounts of one character.
abbrev number_of : String → Option ℕ
number_of s =
    if Text.◌==◌ s "3"
    then some 3
    else if Text.◌==◌ s "7"
    then some 7
    else if Text.◌==◌ s "8"
    then some 8
    else none

abbrev entry : Pubkey → PoolType.PoolType → PoolEntry
entry k t = record { address = k; pool_type = t; mint_a = 1; mint_b = 2 }

abbrev registry : PoolRegistry
registry = add (entry 7 PoolType.raydium_cl) (add (entry 8 PoolType.pump_fun_amm) empty)

abbrev published : Published
published = record { dyn_inputs = λ _. none; oracle_pools = λ _. none }

abbrev transactions : Option (List Transaction)
transactions = some (
    record {
      encoded = json_raw ("7" ∷ "8" ∷ "3" ∷ []);
      meta = some (record {
        failed = false;
        loaded_addresses = none;
        post_token_balances =
            some (record { account_index = 2; owner = some "8"; amount = "3" } ∷ []);
      });
    }
    ∷ [])

mirror_block_collects_example :
    let touched =
      (mirror_block number_of number_of transactions registry published new).0.touched in
    Distinct (pools_of touched) × All (Due registry published) touched
mirror_block_collects_example =
    mirror_block_collects number_of number_of transactions registry published new

mirror_block-Faithful_example :
    Faithful registry new ((mirror_block number_of number_of transactions registry published new).1)
mirror_block-Faithful_example =
    mirror_block-Faithful number_of number_of transactions registry published new
