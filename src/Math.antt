-- ===== src/Math.antt =====
-- quote/math.rs: pricing formulas on reserves, one module per curve.
pub mod ConstantProduct
pub mod PriceImpact
pub mod BondingCurve
pub mod Clmm
