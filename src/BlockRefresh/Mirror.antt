-- ===== src/BlockRefresh/Mirror.antt =====
-- stream/block_refresh.rs: the pass over a block. A block's types are a library's, kept in what is read of
-- them; the parsers of keys and amounts from text are parameters. The set of seen keys is a list, and the global counter
-- of updates is left out, as the pass returns the same count.
mod Tests
pub mod Laws
pub mod Balances
pub mod Steps
use Prim.Native.String.{String}
use flow_trades_solana.Base.{
  ℕ, suc, ◌+◌, Bool, true, false, not, ◌&&◌, ◌||◌, Option, none, some, List, [], ◌∷◌, ◌++◌, ◌==◌,
  if◌then◌else◌, ◌>>=◌, length, get_elem?,
}
use flow_trades_solana.Base.Bytes.{Pubkey}
use flow_trades_solana.PoolType
use flow_trades_solana.PoolType.{PoolType}
use flow_trades_solana.Registry.{PoolRegistry, PoolEntry, get, contains, member}
use flow_trades_solana.AccountMirror.{AccountMirror, is_vault, update_vault_balance, register_vault}
use flow_trades_solana.Byreal.Inputs.{Published, pools_reading_oracle}
use flow_trades_solana.BlockRefresh.{is_refreshed}

-- An entry of `post_token_balances`.
pub record TokenBalance : Type 0 where
  pub account_index : ℕ
  pub owner : Option String
  pub amount : String

-- The message of a transaction, by its encoding: the account keys of a raw one.
pub data Encoded : Type 0 where
  json_raw : (account_keys : List String) → Encoded
  json_parsed other : Encoded

pub record Addresses : Type 0 where
  pub writable : List String
  pub readonly : List String

pub record Meta : Type 0 where
  pub failed : Bool
  pub loaded_addresses : Option Addresses
  pub post_token_balances : Option (List TokenBalance)

pub record Transaction : Type 0 where
  pub encoded : Encoded
  pub meta : Option Meta

pub record MirrorPass : Type 0 where
  pub vault_updates : ℕ
  pub touched : List (Pubkey × PoolType)

-- What the loop over the transactions changes.
pub record Pass : Type 0 where
  pub mirror : AccountMirror
  pub seen : List Pubkey
  pub result : MirrorPass

abbrev pub touch : Pubkey → PoolType → Pass → Pass
touch k t p = record p {
  seen = p.seen ++ (k ∷ []);
  result = record {
    vault_updates = p.result.vault_updates;
    touched = p.result.touched ++ ((k, t) ∷ []);
  };
}

-- `if seen.insert(p) { touched.push(...) }`.
pub touch_new : Pubkey → PoolType → Pass → Pass
touch_new k t p = if member k p.seen then p else touch k t p

pub touch_readers : List Pubkey → Pass → Pass
touch_readers [] p = p
touch_readers (k ∷ ks) p = touch_readers ks (touch_new k PoolType.byreal p)

-- A price push, if some pool reads the account.
pub touch_oracle : Pubkey → Option (List Pubkey) → Pass → Pass
touch_oracle k none p = p
touch_oracle k (some readers) p = touch_readers readers (record p { seen = p.seen ++ (k ∷ []) })

pub touch_key : PoolRegistry → Published → Pubkey → Pass → Pass
touch_key r published k p =
    let found : Pass = elim (get k r) [
      | some entry ↦
          if is_refreshed entry.pool_type && not (entry.mint_a == 0)
          then touch k entry.pool_type p
          else p
      | none ↦ touch_oracle k (pools_reading_oracle published k) p
    ] in
    if member k p.seen then p else found

pub touch_keys : PoolRegistry → Published → List Pubkey → Pass → Pass
touch_keys r published [] p = p
touch_keys r published (k ∷ ks) p = touch_keys r published ks (touch_key r published k p)

-- The balance of an account that is mirrored; a vault that is not known is registered with its owner.
pub mirrored :
    (account : Pubkey) → (known : Bool) → (owner_pool : Option Pubkey) → (balance : ℕ) → Pass → Pass
mirrored account known owner_pool balance p =
    let updated = update_vault_balance account balance p.mirror in
    let registered : AccountMirror = elim owner_pool [
      | none ↦ updated
      | some pool ↦ register_vault account pool updated
    ] in
    record p {
      mirror = if known then updated else registered;
      result = record { vault_updates = p.result.vault_updates + 1; touched = p.result.touched };
    }

module _ (from_str : String → Option Pubkey) (parse_u64 : String → Option ℕ) where
  -- `filter_map` of the keys that parse.
  pub parsed_keys : List String → List Pubkey
  parsed_keys [] = []
  parsed_keys (s ∷ ss) =
      let rest = parsed_keys ss in elim (from_str s) [ none ↦ rest | some k ↦ k ∷ rest ]

  -- The keys up to the first that does not parse.
  pub leading_keys : List String → List Pubkey
  leading_keys [] = []
  leading_keys (s ∷ ss) =
      let rest = leading_keys ss in elim (from_str s) [ none ↦ [] | some k ↦ k ∷ rest ]

  pub all_keys : List String → Option Addresses → Option (List Pubkey)
  all_keys static_keys loaded =
      let keys = parsed_keys static_keys in
      let loaded_keys : List Pubkey = elim loaded [
        | none ↦ []
        | some l ↦ leading_keys (l.writable ++ l.readonly)
      ] in
      if length keys == length static_keys then some (keys ++ loaded_keys) else none

  -- The owner, if it is a known pool.
  pub owner_pool_of : PoolRegistry → TokenBalance → Option Pubkey
  owner_pool_of r b = do
    owner ← b.owner
    key ← from_str owner
    if contains key r then some key else none

  pub mirror_account : PoolRegistry → TokenBalance → Pubkey → Pass → Pass
  mirror_account r b account p =
      let known = is_vault p.mirror account in
      let owner_pool = owner_pool_of r b in
      let unowned : Bool = elim owner_pool [ none ↦ true | some _ ↦ false ] in
      let updated : Pass = elim (parse_u64 b.amount) [
        | none ↦ p
        | some n ↦ mirrored account known owner_pool n p
      ] in
      if not known && unowned then p else updated

  pub mirror_balance : PoolRegistry → List Pubkey → TokenBalance → Pass → Pass
  mirror_balance r keys b p = elim (get_elem? keys b.account_index) [
    | none ↦ p
    | some account ↦ mirror_account r b account p
  ]

  pub mirror_balances : PoolRegistry → List Pubkey → List TokenBalance → Pass → Pass
  mirror_balances r keys [] p = p
  mirror_balances r keys (b ∷ bs) p = mirror_balances r keys bs (mirror_balance r keys b p)

  pub with_keys : PoolRegistry → Published → Meta → Option (List Pubkey) → Pass → Pass
  with_keys r published meta none p = p
  with_keys r published meta (some keys) p =
      let balances : List TokenBalance = elim meta.post_token_balances [
        | none ↦ []
        | some bs ↦ bs
      ] in
      touch_keys r published keys (mirror_balances r keys balances p)

  pub mirror_transaction : PoolRegistry → Published → Transaction → Pass → Pass
  mirror_transaction r published tx p = elim tx.meta [
    | none ↦ p
    | some meta ↦
        let read : Pass = elim tx.encoded [
          | json_raw ks ↦ with_keys r published meta (all_keys ks meta.loaded_addresses) p
          | json_parsed ↦ p
          | other ↦ p
        ] in
        if meta.failed then p else read
  ]

  pub mirror_transactions : PoolRegistry → Published → List Transaction → Pass → Pass
  mirror_transactions r published [] p = p
  mirror_transactions r published (tx ∷ txs) p =
      mirror_transactions r published txs (mirror_transaction r published tx p)

  -- What the pass returns, and the mirror after.
  pub mirror_block :
      (transactions : Option (List Transaction))
      → PoolRegistry
      → Published
      → AccountMirror
      → MirrorPass × AccountMirror
  mirror_block transactions r published mirror =
      let start : Pass = record {
        mirror = mirror;
        seen = [];
        result = record { vault_updates = 0; touched = [] };
      } in
      let txs : List Transaction = elim transactions [ none ↦ [] | some txs ↦ txs ] in
      let end = mirror_transactions r published txs start in (end.result, end.mirror)
