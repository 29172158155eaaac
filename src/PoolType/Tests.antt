-- ===== src/PoolType/Tests.antt =====
-- pool/types.rs: a name read back.
use flow_trades_solana.Base.{some, ◌≡◌, ◌↔◌}
use flow_trades_solana.PoolType.{PoolType, as_str, from_str_opt}
use flow_trades_solana.PoolType.Laws.{from_str_opt-as_str}

from_str_opt-as_str_example :
    (from_str_opt "METEORA_DLMM" ≡ some PoolType.meteora_dlmm)
    ↔ ("METEORA_DLMM" ≡ as_str PoolType.meteora_dlmm)
from_str_opt-as_str_example = from_str_opt-as_str "METEORA_DLMM" PoolType.meteora_dlmm
