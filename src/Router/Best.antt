-- ===== src/Router/Best.antt =====
-- quote/router.rs: the choice of the best route in `Quoter::quote`. The candidates, which are evaluated
-- asynchronously over the states of many pools, are arguments, and the chosen route stands for the response built from
-- it. Split routes are disabled in the source: their list is empty, and their output zero.
mod Tests
pub mod Laws
use flow_trades_solana.Base.{
  ℕ, max, Bool, Option, none, some, List, [], ◌∷◌, leb, ◌==◌, if◌then◌else◌,
}
use flow_trades_solana.Base.Bytes.{Pubkey}
use flow_trades_solana.PoolType.{PoolType}
use flow_trades_solana.Registry.{PoolEntry}

pub record DirectRoute : Type 0 where
  pub pool_address : Pubkey
  pub pool_type : PoolType
  pub out_amount : ℕ
  pub fee_amount : ℕ
  pub reserve_in : ℕ
  pub reserve_out : ℕ
  pub fee_bps : ℕ

pub record TwoHopRoute : Type 0 where
  pub hop1_entry : PoolEntry
  pub hop2_entry : PoolEntry
  pub bridge_mint : Pubkey
  pub hop1_amount_out : ℕ
  pub hop1_fee_amount : ℕ
  pub hop1_reserve_in : ℕ
  pub hop1_reserve_out : ℕ
  pub final_amount_out : ℕ
  pub hop2_fee_amount : ℕ
  pub hop2_reserve_in : ℕ
  pub hop2_reserve_out : ℕ

pub record ThreeHopRoute : Type 0 where
  pub hop1_entry : PoolEntry
  pub hop2_entry : PoolEntry
  pub hop3_entry : PoolEntry
  pub bridge1_mint : Pubkey
  pub bridge2_mint : Pubkey
  pub hop1_amount_out : ℕ
  pub hop1_fee_amount : ℕ
  pub hop1_reserve_in : ℕ
  pub hop1_reserve_out : ℕ
  pub hop2_amount_out : ℕ
  pub hop2_fee_amount : ℕ
  pub hop2_reserve_in : ℕ
  pub hop2_reserve_out : ℕ
  pub final_amount_out : ℕ
  pub hop3_fee_amount : ℕ
  pub hop3_reserve_in : ℕ
  pub hop3_reserve_out : ℕ

pub data Chosen : Type 0 where
  direct : DirectRoute → Chosen
  two_hop : TwoHopRoute → Chosen
  three_hop : ThreeHopRoute → Chosen

-- The greater of a route and the best of those after it, which wins where they are equal.
greater {ℓ} : {A : Type ℓ} → (A → ℕ) → A → Option A → Option A
greater key x none = some x
greater key x (some y) = if leb (key x) (key y) then some y else some x

-- `max_by_key`: the last one of the greatest.
best_by {ℓ} : {A : Type ℓ} → (A → ℕ) → List A → Option A
best_by key [] = none
best_by key (x ∷ xs) = greater key x (best_by key xs)

-- `map(…).unwrap_or(0)`.
abbrev out_of {ℓ} : {A : Type ℓ} → (A → ℕ) → Option A → ℕ
out_of key none = 0
out_of key (some x) = key x

abbrev pub two_hop_out : TwoHopRoute → ℕ
two_hop_out r = r.final_amount_out

abbrev pub three_hop_out : ThreeHopRoute → ℕ
three_hop_out r = r.final_amount_out

abbrev pub direct_out : DirectRoute → ℕ
direct_out r = r.out_amount

-- The route of the greatest output, one of fewer hops first; `none` is `NoRoute`.
pick : Option DirectRoute → Option TwoHopRoute → Option ThreeHopRoute → Option Chosen
pick best_direct best_two_hop best_three_hop =
    let d = out_of direct_out best_direct in
    let t = out_of two_hop_out best_two_hop in
    let h = out_of three_hop_out best_three_hop in
    let max_out = max (max d t) h in
    let third : Option Chosen = elim best_three_hop [
      | none ↦ none
      | some r ↦ if max_out == h then some (three_hop r) else none
    ] in
    let second : Option Chosen = elim best_two_hop [
      | none ↦ third
      | some r ↦ if max_out == t then some (two_hop r) else third
    ] in
    let first : Option Chosen = elim best_direct [
      | none ↦ second
      | some r ↦ if max_out == d then some (direct r) else second
    ] in
    if max_out == 0 then none else first

-- Routes of more hops are not evaluated where only direct ones are asked for.
pub quote :
    (only_direct_routes : Bool)
    → List DirectRoute
    → List TwoHopRoute
    → List ThreeHopRoute
    → Option Chosen
quote only_direct_routes direct_routes two_hop_routes three_hop_routes =
    pick (best_by direct_out direct_routes)
      (best_by two_hop_out (if only_direct_routes then [] else two_hop_routes))
      (best_by three_hop_out (if only_direct_routes then [] else three_hop_routes))
