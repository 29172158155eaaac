-- ===== src/Math/ConstantProduct/Tests.antt =====
-- quote/math.rs: the constant product on small reserves.
use flow_trades_solana.Base.{◌≤◌, ◌≡◌, ◌↔◌, refl, some}
use flow_trades_solana.Math.ConstantProduct.{
  compute_constant_product_out, compute_constant_product_in,
}
use flow_trades_solana.Math.ConstantProduct.Laws.{compute_constant_product_in_least}

sold_100 : compute_constant_product_out 1_000 2_000 100 30 ≡ some 181
unfolding compute_constant_product_out
sold_100 = refl

wanted_181 : compute_constant_product_in 1_000 2_000 181 30 ≡ some 100
unfolding compute_constant_product_in
wanted_181 = refl

compute_constant_product_in_least_example : (181 ≤ 181) ↔ (100 ≤ 100)
compute_constant_product_in_least_example =
    compute_constant_product_in_least 1_000 2_000 181 30 100 wanted_181 sold_100

sold_200 : compute_constant_product_out 1_000 2_000 200 25 ≡ some 332
unfolding compute_constant_product_out
sold_200 = refl
