-- ===== src/Lib.antt =====
-- Verification library of flow-trades-solana: the integer arithmetic that prices a swap on each venue,
-- the fee that is measured from streamed swaps, and the stores of pools that the quotes read.
--
-- The service streams pool states, keeps them in a registry, and answers a quote request by routing it
-- over the pools that hold both mints; for each pool the router (src/quote/router.rs) calls one pure
-- pricing function of its venue. Those functions are modelled here, from the source's own integers:
--   Base          Rust's checked, saturating and wrapping integers, `Option` chains, and the lemmas
--                 on rounded division that every venue shares.
--   Math          src/quote/math.rs: the constant product (Math/ConstantProduct), the bonding curve with
--                 its fee (Math/BondingCurve), one range of a concentrated pool (Math/Clmm), the walk over
--                 several (Math/Clmm/MultiTick), and the price impact (Math/PriceImpact).
--   LaunchLab     src/quote/launchlab.rs: `buy_exact_in`, `sell_exact_in` and the fee.
--   PumpBonding   src/quote/pump_bonding.rs: the tiers, the fees, `buy_exact_in`, `sell_exact_in`.
--   MeteoraStd    src/quote/meteora_std.rs: the vaults (MeteoraStd/Vault) and `swap_exact_in`.
--   DammV2        src/quote/damm_v2.rs: the fee (DammV2/Fees), the steps of the price (DammV2/Price) and
--                 `swap_exact_in`.
--   Dbc           src/quote/dbc.rs: the fee (Dbc/Fees), the walk along the curve (Dbc/Walk) and
--                 `swap_exact_in`, with the price steps of DammV2 as in the source.
--   Dlmm          src/quote/dlmm.rs: the pair and its fee (Dlmm/Pair), the price of a bin (Dlmm/Price), the
--                 swap inside a bin (Dlmm/Bin), the order of the bin arrays (Dlmm/Arrays) and the walk
--                 (Dlmm/Walk).
--   Clmm          src/quote/clmm.rs: the wide products (Clmm/Wide), the tables of tick prices (Clmm/Price),
--                 one step of a swap (Clmm/Step), the limit orders on a tick (Clmm/Orders), the loaded ticks
--                 (Clmm/Ticks), the fees that follow the price (Clmm/Volatility, Clmm/Raydium, Clmm/Orca,
--                 Clmm/Fees) and the walk over the ticks (Clmm/Walk, with its state in Clmm/Course).
--   Byreal        src/quote/byreal_fee.rs: the base rate with its decay, the rate that follows the oracle
--                 (Byreal/Dynamic), and the accounts that it reads (Byreal/Inputs).
--   PumpAmm       src/execution/amms/pumpfun_amm.rs: the fee tier of a pump.fun AMM pool.
--   Router        src/quote/router.rs: what the router knows of a venue (Router/Venue), the amounts it
--                 promises (Router/Amounts, with src/quote/types.rs), the reserves of a pool (Router/Reserves), the
--                 constant-product leg with the fee that a pool charges (Router/Legs, with src/execution/amms/raydium_v4.rs), and the
--                 choice of the best route (Router/Best).
--   Mints         src/pool/mints.rs: transfer fees, the extensions of a mint, what is known of it.
--   PoolType      src/pool/types.rs: the pool types and their names.
--   PoolCache     src/pool/cache.rs: the cache with its time to live, and dormant pools.
--   AccountMirror src/stream/account_mirror.rs: vault balances and the pools of a vault.
--   Registry      src/pool/registry.rs: `PoolRegistry` with its index by mint pair.
--   PoolState     src/pool/types.rs: the states of pools, a record for each variant (PoolState/Clmm, PoolState/Curves,
--                 PoolState/Vaults, PoolState/Swaps) and the fee of the token-swap forks (PoolState/Fees).
--   Fetcher       src/pool/fetcher.rs: the parse of a pool's account by its type, with the parsers of each venue
--                 (Fetcher/Raydium, Fetcher/Meteora, Fetcher/Whirlpools, Fetcher/Swaps), how they read bytes
--                 (Fetcher/Reading), and the fee fields (Fetcher/Fees, of src/quote).
--   BlockRefresh  src/stream/block_refresh.rs: the pass over a block that mirrors vaults and collects pools
--                 (BlockRefresh/Mirror), and the re-read of the collected pools (BlockRefresh/Refresh).
--   Execution     src/execution: the instruction of the router program that wraps the swaps of a route
--                 (Execution/Wrap, router.rs) and the bytes of a transaction of format v1 (Execution/TxV1, tx_v1.rs).
--   ObservedFees  src/stream/observed_fees.rs: `implied_fee_ppm`, and the observations (ObservedFees/Cache).
-- In each of them Laws holds the theorems and Tests the concrete runs.
--
-- Machine integers are naturals: a checked operation is `none` where the result leaves the width, a cast
-- that cuts keeps the remainder modulo the width, `saturating_sub` is the subtraction of naturals. Sums
-- of machine integers that the source does not check wrap around, as in a release build. A panic (the
-- source's 256-bit type on overflow, a division by zero, an index out of range) is `none` too.
--
-- Bounds and fuel. The walk over ranges (Math/Clmm/MultiTick) has fuel for twelve rounds: the source's
-- test lets eleven boundaries be crossed, and ends the loop after them. The search for the fee base (`PumpBonding.shrink`) recurs on the
-- base, the walks of Dbc on the points of the curve, the bits of an exponent on their number. The walk
-- over bins recurs on the bins ahead in an array, and on the arrays that may still be entered: with none
-- of either ahead the source's loop ends as the base case says. The outer loop of the walk over ticks
-- (Clmm/Walk) recurs on the source's 512 rounds; its inner loop has no bound in the source and takes fuel,
-- where more fuel never changes an answer, and one turn is enough for a static fee.
--
-- Parsers of accounts keep an error and a panic apart (Fetcher/Reading); the errors of src/execution keep the
-- numbers that their texts show. The loops over chunks of keys (BlockRefresh/Refresh) have the length of the list
-- as fuel, as each turn takes at least one item. What a library does is a parameter: the derivation of
-- addresses, the parse of keys and numbers from text, the compiler of messages, the RPC client.
--
-- Not modelled: the network and the storage (the rest of src/stream, src/storage, src/api), the fetch of the
-- accounts that some pools need beside their own (src/pool/fetcher.rs), the instructions of each venue
-- (src/execution/amms), and the router's evaluation of candidate routes, which is asynchronous code over the
-- states of many pools (src/quote/router.rs).
pub mod Base
pub mod Math
pub mod LaunchLab
pub mod PumpBonding
pub mod PumpAmm
pub mod MeteoraStd
pub mod DammV2
pub mod Dbc
pub mod Clmm
pub mod Dlmm
pub mod Byreal
pub mod Registry
pub mod ObservedFees
pub mod PoolType
pub mod Mints
pub mod PoolCache
pub mod AccountMirror
pub mod Router
pub mod Execution
pub mod BlockRefresh
pub mod PoolState
pub mod Fetcher
