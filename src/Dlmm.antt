-- ===== src/Dlmm.antt =====
-- quote/dlmm.rs: Meteora's liquidity book, exact input. `Pair` has the pair's state and its fee,
-- `Bin` one bin and the fill of it, `Arrays` the bin arrays with liquidity and their order, `Price`
-- the price of a bin, `Walk` the swap. Reading the accounts' bytes (`parse`), the addresses derived
-- from keys, the cached snapshots and the clock are not modelled.
pub mod Pair
pub mod Price
pub mod Bin
pub mod Arrays
pub mod Walk
