-- ===== src/Router/Best/Tests.antt =====
-- quote/router.rs: a direct route and a longer one that gives more.
use flow_trades_solana.Base.{[], ◌∷◌, true, false}
use flow_trades_solana.PoolType.{PoolType}
use flow_trades_solana.Registry.{PoolEntry}
use flow_trades_solana.Router.Best.{
  DirectRoute, TwoHopRoute, quote, direct_out, two_hop_out, three_hop_out,
}
use flow_trades_solana.Router.Best.Laws.{quote-AtMost, AtMost, out_of_choice}

abbrev near : DirectRoute
near = record {
  pool_address = 1;
  pool_type = PoolType.raydium_v4;
  out_amount = 90;
  fee_amount = 1;
  reserve_in = 1_000;
  reserve_out = 1_000;
  fee_bps = 25;
}

abbrev entry : PoolEntry
entry = record { address = 2; pool_type = PoolType.raydium_v4; mint_a = 3; mint_b = 4 }

abbrev far : TwoHopRoute
far = record {
  hop1_entry = entry;
  hop2_entry = entry;
  bridge_mint = 4;
  hop1_amount_out = 100;
  hop1_fee_amount = 1;
  hop1_reserve_in = 1_000;
  hop1_reserve_out = 1_000;
  final_amount_out = 95;
  hop2_fee_amount = 1;
  hop2_reserve_in = 1_000;
  hop2_reserve_out = 1_000;
}

quote-AtMost_example :
    let best = out_of_choice (quote false (near ∷ []) (far ∷ []) []) in
    AtMost direct_out best (near ∷ [])
    × AtMost two_hop_out best (far ∷ [])
    × AtMost three_hop_out best []
    × AtMost direct_out (out_of_choice (quote true (near ∷ []) (far ∷ []) [])) (near ∷ [])
quote-AtMost_example = quote-AtMost (near ∷ []) (far ∷ []) []
