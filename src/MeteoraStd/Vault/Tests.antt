-- ===== src/MeteoraStd/Vault/Tests.antt =====
-- quote/meteora_std.rs: two small vaults and a swap between them.
use flow_trades_solana.Base.{◌+◌, ◌-◌, ◌*◌, ◌≤◌, ◌<◌, ◌≡◌, refl, true, some, arith}
use flow_trades_solana.MeteoraStd.{
  MeteoraStdReserves, fee_of, protocol_part, vault_in, vault_out, actual_input, curve_output,
  swap_exact_in,
}
use flow_trades_solana.MeteoraStd.Vault.{
  VaultView, VaultShare, locked_profit, unlocked_amount, amount_by_share, unmint_amount,
  pool_amount,
}
use flow_trades_solana.MeteoraStd.Laws.{swap_exact_in_keeps_product}

abbrev profiting : VaultView
profiting = record {
  total_amount = 1_000;
  last_updated_locked_profit = 100;
  last_report = 0;
  locked_profit_degradation = 100_000_000_000;
}

burned_54 : unmint_amount profiting 100 500 2 ≡ some 54
unfolding unmint_amount unlocked_amount locked_profit
burned_54 = refl

abbrev plain : VaultShare
plain = record {
  vault = record {
    total_amount = 10_000;
    last_updated_locked_profit = 0;
    last_report = 0;
    locked_profit_degradation = 0;
  };
  lp_supply = 10_000;
  pool_lp = 1_000;
}

abbrev pool : MeteoraStdReserves
pool = record {
  token_a_amount = 1_000;
  token_b_amount = 1_000;
  computed_at = 0;
  trade_fee_numerator = 25;
  trade_fee_denominator = 10_000;
  constant_product = true;
  protocol_fee_numerator = 20;
  protocol_fee_denominator = 100;
  vault_a = plain;
  vault_b = plain;
}

swapped_100 : swap_exact_in pool true 100 0 ≡ some (90, 1)
unfolding swap_exact_in fee_of protocol_part vault_in vault_out actual_input curve_output
    unmint_amount amount_by_share pool_amount unlocked_amount locked_profit
swapped_100 = refl

swap_exact_in_keeps_product_example :
    (0 < 90) × (90 < 1_000) × (1_000 * 1_000 ≤ (1_000 + (100 - 1)) * (1_000 - 90))
unfolding vault_in vault_out pool_amount amount_by_share unlocked_amount locked_profit
swap_exact_in_keeps_product_example =
    swap_exact_in_keeps_product pool true 100 0 (omega arith) (omega arith) swapped_100
