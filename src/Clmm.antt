-- ===== src/Clmm.antt =====
-- quote/clmm.rs: the walk over a concentrated pool's real ticks, exact input. `Wide` has the products
-- and quotients of wide integers, `Price` the price of a tick, `Step` the amounts between two prices and
-- one step, `Orders` the limit orders on a tick, `Volatility`, `Raydium`,
-- `Orca` and `Fees` the fee of a step, `Ticks` the loaded ticks,
-- `Walk` the swap. Reading the accounts' bytes, the derived addresses and the map of loaded ticks are not
-- modelled.
pub mod Wide
pub mod Price
pub mod Step
pub mod Orders
pub mod Ticks
pub mod Volatility
pub mod Raydium
pub mod Orca
pub mod Fees
pub mod Course
pub mod Walk
