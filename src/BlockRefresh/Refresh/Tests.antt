-- ===== src/BlockRefresh/Refresh/Tests.antt =====
-- stream/block_refresh.rs: a pool of the Standard venue and another, both read again. A pool's state is a number.
use flow_trades_solana.Base.{
  ℕ, ◌+◌, ◌≡◌, true, false, Option, some, List, [], ◌∷◌, map, length, arith,
}
use flow_trades_solana.Base.Bytes.{Pubkey}
use flow_trades_solana.Base.Positions.{length-map}
use flow_trades_solana.PoolType.{PoolType}
use flow_trades_solana.PoolCache.{new, insert}
use flow_trades_solana.Byreal.Inputs.{Account}
use flow_trades_solana.BlockRefresh.Refresh.{Touched, Context, Outside, refresh_touched}
use flow_trades_solana.BlockRefresh.Refresh.Standard.{Answers, SixKeys}
use flow_trades_solana.BlockRefresh.Refresh.Laws.{Refreshed, refresh_touched-Refreshed}

abbrev found : Pubkey → Option Account
found k = some (record { owner = 4; bytes = k ∷ [] })

abbrev outside : Outside ℕ
outside = record {
  get_multiple_accounts = λ keys. some (map found keys);
  reparse_pool_state = λ t k a prev. some 40;
  load_ticks = λ states. length states;
  meteora_std_refresh_keys = λ st. some (11 ∷ 12 ∷ 13 ∷ 14 ∷ 15 ∷ 16 ∷ []);
  refresh_meteora_std_from = λ st accounts. (st + 1, true);
}

abbrev context : Context ℕ
context = record { cache = insert 7 70 100 (insert 8 80 100 (new 60)); in_flight = λ _. false }

abbrev touched : List Touched
touched = (7, PoolType.meteora) ∷ (8, PoolType.orca) ∷ (9, PoolType.orca) ∷ []

answers-Answers : Answers outside 110 120
answers-Answers keys accounts h = ground (arith, h, length-map found keys)

six-SixKeys : SixKeys outside 110 120
six-SixKeys st keys h = ground (arith, h)

refresh_touched-Refreshed_example :
    (r : (ℕ × ℕ) × Context ℕ) × (refresh_touched outside 110 120 touched context ≡ some r)
    × Refreshed outside 110 120 touched context (r.1)
refresh_touched-Refreshed_example =
    refresh_touched-Refreshed outside 110 120 touched context answers-Answers six-SixKeys
