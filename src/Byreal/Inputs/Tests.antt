-- ===== src/Byreal/Inputs/Tests.antt =====
-- quote/byreal_fee.rs: a pool whose accounts are gone, and one price account read.
use flow_trades_solana.Base.{
  ℕ, List, [], ◌∷◌, ◌++◌, ◌≡◌, refl, some, none, true, Option, ◌>>=◌, zero, suc,
}
use flow_trades_solana.Base.Int.{pos, negsuc}
use flow_trades_solana.Byreal.{is_dynamic}
use flow_trades_solana.Byreal.Dynamic.{dynamic_fee_rate}
use flow_trades_solana.Byreal.Inputs.{
  Account, ByrealPool, Published, fee_of, parse_inputs, publish_dyn_inputs, swap_fee_ppm,
  parse_price_update, message_at, pyth_receiver_prog_id,
}
use flow_trades_solana.Byreal.Inputs.Laws.{publish-swap_fee_ppm}

abbrev zeros : ℕ → List ℕ
zeros zero = []
zeros (suc n) = 0 ∷ zeros n

abbrev update : Account
update = record {
  owner = pyth_receiver_prog_id;
  bytes =
      zeros 40
      ++ (1 ∷ zeros 32)
      ++ (5 ∷ zeros 7)
      ++ zeros 8
      ++ (0xf8 ∷ 0xff ∷ 0xff ∷ 0xff ∷ [])
      ++ (9 ∷ zeros 7);
}

read_lem :
    parse_price_update update (zeros 32)
    ≡ some (record { price = pos 5; exponent = negsuc 7; publish_time = pos 9 })
unfolding parse_price_update message_at
read_lem = refl

abbrev pool : ByrealPool
pool = record {
  pool = 7;
  token_vault_a = 1;
  token_vault_b = 2;
  sqrt_price_x64 = 0x10000000000000000;
  fee = record {
    pool_trade_fee_rate = 400;
    flags = 24;
    decay_init_rate = 0;
    decay_decrease_rate = 0;
    decay_interval = 0;
    open_time = 0;
    status = 0;
    fee_on = 0;
    arbitrage_fee_buffer_ppm = 100;
    slippage_fee_base = 0;
    slippage_fee_threshold = 0;
    imbalance_fee_base = 0;
    imbalance_fee_x = 100;
    decimals_0 = 6;
    decimals_1 = 6;
    feed_id_0 = zeros 32;
    feed_id_1 = zeros 32;
    oracle_0 = 3;
    oracle_1 = 4;
  };
}

abbrev vault : Account
vault = record { owner = 0; bytes = zeros 64 ++ (100 ∷ zeros 7) }

abbrev accounts : List (Option Account)
accounts = some vault ∷ some vault ∷ some update ∷ some update ∷ []

abbrev nothing : Published
nothing = record { dyn_inputs = λ _. none; oracle_pools = λ _. none }

dynamic : is_dynamic pool.fee ≡ true
unfolding is_dynamic
dynamic = refl

publish-swap_fee_ppm_example :
    swap_fee_ppm
      ((publish_dyn_inputs (some pool) accounts nothing).1)
      (some pool)
      7
      true
      1_000
      400
      (pos 10)
    ≡ fee_of (
        parse_inputs pool.fee accounts >>= λ inp.
        dynamic_fee_rate pool.fee 400 0x10000000000000000 inp true 1_000 (pos 10))
publish-swap_fee_ppm_example =
    publish-swap_fee_ppm nothing pool accounts true 1_000 400 (pos 10) dynamic
