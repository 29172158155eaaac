-- ===== src/BlockRefresh/Mirror/Steps.antt =====
-- stream/block_refresh.rs: what each update of a balance and each round over the keys keeps, a whole pass keeps.
use Prim.Native.String.{String}
use flow_trades_solana.Base.{
  ℕ, Bool, true, false, not, ◌&&◌, ◌≡◌, refl, Option, none, some, List, [], ◌∷◌, get_elem?, arith,
  if-both, Option-both, answered,
}
use flow_trades_solana.Base.Bytes.{Pubkey}
use flow_trades_solana.Registry.{PoolRegistry, contains}
use flow_trades_solana.AccountMirror.{is_vault}
use flow_trades_solana.Byreal.Inputs.{Published}
use flow_trades_solana.BlockRefresh.Mirror.{
  Pass, touch_keys, mirrored, mirror_account, mirror_balance, mirror_balances, with_keys,
  mirror_transaction, mirror_transactions, TokenBalance, Transaction, Meta, Encoded, owner_pool_of,
  all_keys, json_raw, json_parsed, other,
}

-- Why an account is mirrored: it is a known vault, or its owner is a known pool; and the owner that is kept is one.
abbrev pub Allowed : PoolRegistry → Bool → Option Pubkey → Type 0
Allowed r known none = known ≡ true
Allowed r known (some pool) = contains pool r ≡ true

module _ (r : PoolRegistry) (published : Published) (from_str : String → Option Pubkey)
    (parse_u64 : String → Option ℕ) (P : Pass → Type 0)
    (update : (account : Pubkey) (owner : Option Pubkey) (balance : ℕ) (p : Pass)
      → Allowed r (is_vault p.mirror account) owner
      → P p
      → P (mirrored account (is_vault p.mirror account) owner balance p))
    (touch_all : (ks : List Pubkey) (p : Pass) → P p → P (touch_keys r published ks p)) where
  owner_known :
      (b : TokenBalance) (k : Pubkey)
      → owner_pool_of from_str parse_u64 r b ≡ some k
      → contains k r ≡ true
  unfolding owner_pool_of
  owner_known b k h =
      let (owner, _, h) = answered b.owner h in
      let (key, _, h) = answered (from_str owner) h in ground (arith, h)

  allowed :
      (b : TokenBalance) (known : Bool) (o : Option Pubkey)
      → owner_pool_of from_str parse_u64 r b ≡ o
      → (not known && (elim o [ none ↦ true | some _ ↦ false ])) ≡ false
      → Allowed r known o
  allowed b known none e h = ground (arith, h)
  allowed b known (some k) e h = owner_known b k e

  account-P :
      (b : TokenBalance) (account : Pubkey) (p : Pass)
      → P p
      → P (mirror_account from_str parse_u64 r b account p)
  unfolding mirror_account
  account-P b account p h =
      if-both P _ (λ _. h)
        λ e.
          Option-both P (parse_u64 b.amount) h λ n _.
            update account (owner_pool_of from_str parse_u64 r b) n p (allowed b _ _ refl e) h

  balances-P :
      (keys : List Pubkey) (bs : List TokenBalance) (p : Pass)
      → P p
      → P (mirror_balances from_str parse_u64 r keys bs p)
  unfolding mirror_balances mirror_balance
  balances-P keys [] p h = h
  balances-P keys (b ∷ bs) p h =
      balances-P keys bs _
        (Option-both P (get_elem? keys b.account_index) h λ account _. account-P b account p h)

  keys-P :
      (meta : Meta) (keys : Option (List Pubkey)) (p : Pass)
      → P p
      → P (with_keys from_str parse_u64 r published meta keys p)
  unfolding with_keys
  keys-P meta none p h = h
  keys-P meta (some keys) p h = touch_all keys _ (balances-P keys _ p h)

  encoded-P :
      (meta : Meta) (e : Encoded) (p : Pass)
      → P p
      → P (elim e [
        | json_raw ks ↦
            with_keys from_str parse_u64 r published meta
              (all_keys from_str parse_u64 ks meta.loaded_addresses)
              p
        | json_parsed ↦ p
        | other ↦ p
      ])
  encoded-P meta (json_raw ks) p h = keys-P meta _ p h
  encoded-P meta json_parsed p h = h
  encoded-P meta other p h = h

  pub mirror_transactions-P :
      (txs : List Transaction) (p : Pass)
      → P p
      → P (mirror_transactions from_str parse_u64 r published txs p)
  unfolding mirror_transactions mirror_transaction
  mirror_transactions-P [] p h = h
  mirror_transactions-P (tx ∷ txs) p h = mirror_transactions-P txs _ (
      Option-both P tx.meta h
        λ meta _. if-both P meta.failed (λ _. h) λ _. encoded-P meta tx.encoded p h)
