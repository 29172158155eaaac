-- ===== src/Registry.antt =====
-- pool/registry.rs: the registry of pools, with its index by mint pair. A concurrent map is a function, and each operation
-- runs alone. Reading a JSON file and the listing of all entries are not modelled.
mod Tests
pub mod Laws
use flow_trades_solana.Base.{
  ℕ, Bool, true, false, ◌&&◌, Option, none, some, List, [], ◌∷◌, ◌++◌, leb, ◌==◌, if◌then◌else◌,
  not, ◌||◌,
}
use flow_trades_solana.Base.Bytes.{Pubkey}
use flow_trades_solana.PoolType.{PoolType}

pub record PoolEntry : Type 0 where
  pub address : Pubkey
  pub pool_type : PoolType
  pub mint_a : Pubkey
  pub mint_b : Pubkey

pub sorted_pair : Pubkey → Pubkey → Pubkey × Pubkey
sorted_pair a b = if leb a b then (a, b) else (b, a)

pub same_pair : Pubkey × Pubkey → Pubkey × Pubkey → Bool
same_pair (a, b) (c, d) = a == c && b == d

pub record PoolRegistry : Type 0 where
  pub pools : Pubkey → Option PoolEntry
  pub mint_index : Pubkey × Pubkey → Option (List Pubkey)

pub empty : PoolRegistry
empty = record { pools = λ _. none; mint_index = λ _. none }

-- `contains`, `retain(|a| *a != x)`, and a push of what is missing, on a list of addresses.
unfoldable pub member : Pubkey → List Pubkey → Bool
member x [] = false
member x (y ∷ ys) = x == y || member x ys

pub retain_not : Pubkey → List Pubkey → List Pubkey
retain_not x [] = []
retain_not x (y ∷ ys) = let rest = retain_not x ys in if x == y then rest else y ∷ rest

pub push_missing : Pubkey → Option (List Pubkey) → List Pubkey
push_missing x none = x ∷ []
push_missing x (some xs) = if member x xs then xs else xs ++ (x ∷ [])

-- `get_mut` of a pair's addresses, and a `retain` of them.
pub unlist : Pubkey → Option (List Pubkey) → Option (List Pubkey)
unlist x none = none
unlist x (some xs) = some (retain_not x xs)

-- The index without the address in the pair of the entry that `add` replaces, where it differs.
pub forget_old :
    Pubkey
    → Option PoolEntry
    → Pubkey × Pubkey
    → (Pubkey × Pubkey → Option (List Pubkey))
    → Pubkey × Pubkey
    → Option (List Pubkey)
forget_old x none pair index key = index key
forget_old x (some old) pair index key =
    if not (same_pair (sorted_pair old.mint_a old.mint_b) pair)
      && same_pair key (sorted_pair old.mint_a old.mint_b)
    then unlist x (index key)
    else index key

pub add : PoolEntry → PoolRegistry → PoolRegistry
add entry r =
    let pair = sorted_pair entry.mint_a entry.mint_b in
    let index = forget_old entry.address (r.pools entry.address) pair r.mint_index in
    record {
      pools = λ x. if x == entry.address then some entry else r.pools x;
      mint_index = λ key.
          if same_pair key pair then some (push_missing entry.address (index key)) else index key;
    }

pub from_entries : List PoolEntry → PoolRegistry → PoolRegistry
from_entries [] r = r
from_entries (e ∷ es) r = from_entries es (add e r)

-- With the entry that the address had.
pub remove_found : Pubkey → PoolEntry → PoolRegistry → PoolRegistry
remove_found x e r = record {
  pools = λ y. if y == x then none else r.pools y;
  mint_index = λ key.
      if same_pair key (sorted_pair e.mint_a e.mint_b)
      then unlist x (r.mint_index key)
      else r.mint_index key;
}

pub remove : Pubkey → PoolRegistry → PoolRegistry
remove x r = elim (r.pools x) [ none ↦ r | some e ↦ remove_found x e r ]

pub get : Pubkey → PoolRegistry → Option PoolEntry
get x r = r.pools x

pub contains : Pubkey → PoolRegistry → Bool
contains x r = elim (r.pools x) [ none ↦ false | some _ ↦ true ]

unfoldable pub addresses_of : Option (List Pubkey) → List Pubkey
addresses_of none = []
addresses_of (some xs) = xs

-- `filter_map` of `pools.get`.
pub entries_at : PoolRegistry → List Pubkey → List PoolEntry
entries_at r [] = []
entries_at r (x ∷ xs) =
    let rest = entries_at r xs in elim (r.pools x) [ none ↦ rest | some e ↦ e ∷ rest ]

pub lookup : Pubkey → Pubkey → PoolRegistry → List PoolEntry
lookup a b r = entries_at r (addresses_of (r.mint_index (sorted_pair a b)))
