-- ===== src/BlockRefresh/Refresh.antt =====
-- stream/block_refresh.rs: the re-read of touched pools, run alone. The RPC client answers or fails by the keys that are
-- asked; the parsers of pool states and the loading of ticks stand in other files and are parameters, the ticks by
-- the number that is loaded. `now` is the clock when the pools are chosen, `later` when they were read. Where a slice of
-- the answer is out of range the task panics, which is `none`. The global counters are left out.
mod Tests
pub mod Claims
pub mod Standard
pub mod Laws
use flow_trades_solana.Base.{
  ℕ, zero, suc, ◌+◌, ◌*◌, Bool, true, false, not, ◌&&◌, ◌||◌, Option, none, some, List, [], ◌∷◌,
  ◌++◌, map, leb, ◌==◌, if◌then◌else◌, ◌>>=◌, length,
}
use flow_trades_solana.Base.Bytes.{Pubkey, take, drop}
use flow_trades_solana.PoolType
use flow_trades_solana.PoolType.{PoolType}
use flow_trades_solana.PoolCache.{PoolCache, get, insert}
use flow_trades_solana.Byreal.Inputs.{Account}

abbrev pub max_state_refresh_per_block : ℕ
max_state_refresh_per_block = 300

abbrev pub Touched : Type 0
Touched = Pubkey × PoolType

-- `cache` and `in_flight` of the context.
pub record Context (PoolState : Type 0) : Type 0 where
  pub cache : PoolCache PoolState
  pub in_flight : Pubkey → Bool

pub is_meteora : PoolType → Bool
is_meteora PoolType.meteora = true
is_meteora _ = false

-- The two parts of `partition`.
pub meteora_part : List Touched → List Touched
meteora_part [] = []
meteora_part (t ∷ ts) = let rest = meteora_part ts in if is_meteora (t.1) then t ∷ rest else rest

pub other_part : List Touched → List Touched
other_part [] = []
other_part (t ∷ ts) = let rest = other_part ts in if is_meteora (t.1) then rest else t ∷ rest

pub retain_idle : (Pubkey → Bool) → List Touched → List Touched
retain_idle in_flight [] = []
retain_idle in_flight (t ∷ ts) =
    let rest = retain_idle in_flight ts in if in_flight (t.0) then rest else t ∷ rest

-- A pool of the Standard venue, its state, and the accounts of its reserves.
abbrev pub Plan : Type 0 → Type 0
Plan PoolState = Pubkey × PoolState × List Pubkey

-- What the code calls: the RPC client, and the functions of the files that read pools and load ticks.
pub record Outside (PoolState : Type 0) : Type 0 where
  pub get_multiple_accounts : List Pubkey → Option (List (Option Account))
  pub reparse_pool_state :
      PoolType → Pubkey → Account → (prev : Option PoolState) → Option PoolState
  pub load_ticks : List PoolState → ℕ
  pub meteora_std_refresh_keys : PoolState → Option (List Pubkey)
  pub refresh_meteora_std_from : PoolState → List (Option Account) → PoolState × Bool

module _ {PoolState : Type 0} where
  pub retain_cached : PoolCache PoolState → (now : ℕ) → List Touched → List Touched
  retain_cached c now [] = []
  retain_cached c now (t ∷ ts) =
      let rest = retain_cached c now ts in
      elim (get c (t.0) now) [ none ↦ rest | some _ ↦ t ∷ rest ]

  -- The pools of a call that are read again.
  pub chosen : Context PoolState → (now : ℕ) → List Touched → List Touched
  chosen ctx now touched =
      take max_state_refresh_per_block
        (retain_idle ctx.in_flight (retain_cached ctx.cache now touched))

  pub claim_all : List Touched → Context PoolState → Context PoolState
  claim_all [] ctx = ctx
  claim_all (t ∷ ts) ctx =
      claim_all ts (record ctx { in_flight = λ x. x == t.0 || ctx.in_flight x })

  pub release_all : List Touched → Context PoolState → Context PoolState
  release_all [] ctx = ctx
  release_all (t ∷ ts) ctx =
      release_all ts (record ctx { in_flight = λ x. not (x == t.0) && ctx.in_flight x })

  pub insert_all : (later : ℕ) → List (Pubkey × PoolState) → Context PoolState → Context PoolState
  insert_all later [] ctx = ctx
  insert_all later ((k, st) ∷ rest) ctx =
      insert_all later rest (record ctx { cache = insert k st later ctx.cache })

  module _ (outside : Outside PoolState) (now later : ℕ) where
    pub plan_of : PoolCache PoolState → Pubkey → Option (Plan PoolState)
    plan_of c pool = do
      st ← get c pool now
      keys ← outside.meteora_std_refresh_keys st
      some (pool, st, keys)

    pub plans : PoolCache PoolState → List Touched → List (Plan PoolState)
    plans c [] = []
    plans c (t ∷ ts) =
        let rest = plans c ts in elim (plan_of c (t.0)) [ none ↦ rest | some p ↦ p ∷ rest ]

    pub plan_keys : List (Plan PoolState) → List Pubkey
    plan_keys [] = []
    plan_keys ((_, _, keys) ∷ rest) = keys ++ plan_keys rest

    -- The inner loop over a chunk, on the accounts that are left of its answer, with the number of pools done.
    pub refresh_chunk :
        List (Plan PoolState)
        → List (Option Account)
        → ℕ
        → Context PoolState
        → Option (ℕ × Context PoolState)
    refresh_chunk [] accounts done ctx = some (done, ctx)
    refresh_chunk ((pool, st, _) ∷ rest) accounts done ctx =
        let read = outside.refresh_meteora_std_from st (take 6 accounts) in
        let kept = record ctx { cache = insert pool (read.0) later ctx.cache } in
        let next =
          refresh_chunk rest (drop 6 accounts) (if read.1 then done + 1 else done)
            (if read.1 then kept else ctx) in
        if leb 6 (length accounts) then next else none

    -- The loop over the chunks of 16, each of which takes one of the fuel, up to the first read that fails.
    pub refresh_chunks :
        (fuel : ℕ) → List (Plan PoolState) → ℕ → Context PoolState → Option (ℕ × Context PoolState)
    refresh_chunks zero ps done ctx = some (done, ctx)
    refresh_chunks (suc fuel) [] done ctx = some (done, ctx)
    refresh_chunks (suc fuel) (p ∷ ps) done ctx =
        elim (outside.get_multiple_accounts (plan_keys (take 16 (p ∷ ps)))) [
          | none ↦ some (done, ctx)
          | some accounts ↦ refresh_chunk (take 16 (p ∷ ps)) accounts done ctx >>= λ (n, after).
              refresh_chunks fuel (drop 16 (p ∷ ps)) n after
        ]

    pub refresh_meteora_std : List Touched → Context PoolState → Option (ℕ × Context PoolState)
    refresh_meteora_std pools ctx =
        let ps = plans ctx.cache pools in
        refresh_chunks (length ps) ps 0 ctx >>= λ (n, after). some (n, release_all pools after)

    -- The reads of 100 keys, each of which takes one of the fuel; `none` where one fails.
    pub fetch_all : (fuel : ℕ) → List Pubkey → Option (List (Option Account))
    fetch_all zero keys = some []
    fetch_all (suc fuel) [] = some []
    fetch_all (suc fuel) (k ∷ ks) = do
      accounts ← outside.get_multiple_accounts (take 100 (k ∷ ks))
      rest ← fetch_all fuel (drop 100 (k ∷ ks))
      some (accounts ++ rest)

    -- The pools whose accounts were found and parse, with their states.
    pub fresh_states :
        PoolCache PoolState → List Touched → List (Option Account) → List (Pubkey × PoolState)
    fresh_states c [] accounts = []
    fresh_states c (t ∷ ts) [] = []
    fresh_states c (t ∷ ts) (account ∷ accounts) =
        let rest = fresh_states c ts accounts in
        elim (account >>= λ a. outside.reparse_pool_state (t.1) (t.0) a (get c (t.0) later)) [
          | none ↦ rest
          | some st ↦ (t.0, st) ∷ rest
        ]

    -- The states and ticks that were refreshed, and the context after.
    pub refresh_others :
        List Touched → (meteora_n : ℕ) → Context PoolState → (ℕ × ℕ) × Context PoolState
    refresh_others touched meteora_n ctx =
        elim (fetch_all (length touched) (map (λ t. t.0) touched)) [
          | none ↦ ((0, 0), release_all touched ctx)
          | some accounts ↦
              let fresh = fresh_states ctx.cache touched accounts in
              (
                (length fresh + meteora_n, outside.load_ticks (map (λ s. s.1) fresh)),
                release_all touched (insert_all later fresh ctx),
              )
        ]

    pub refresh_touched : List Touched → Context PoolState → Option ((ℕ × ℕ) × Context PoolState)
    refresh_touched touched ctx =
        let picked = chosen ctx now touched in
        let others = other_part picked in
        let run : Option ((ℕ × ℕ) × Context PoolState) =
          refresh_meteora_std (meteora_part picked) (claim_all picked ctx) >>= λ (meteora_n, after).
          some (
            if length others == 0
            then ((meteora_n, 0), after)
            else refresh_others others meteora_n after) in
        if length picked == 0 then some ((0, 0), ctx) else run
