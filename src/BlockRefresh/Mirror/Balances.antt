-- ===== src/BlockRefresh/Mirror/Balances.antt =====
-- stream/block_refresh.rs: theorems on what a block's pass does to the mirror.
use Prim.Native.String.{String}
use flow_trades_solana.Base.{
  ℕ, true, ◌≡◌, refl, sym, ap, ◌∙◌, ◌⊎◌, inl, Option, none, some, List, [], ◌∷◌, arith, if-both,
  Option-both, subst,
}
use flow_trades_solana.Base.Bytes.{Pubkey}
use flow_trades_solana.PoolType.{PoolType}
use flow_trades_solana.AccountMirror.Laws.{
  get_vault_balance-update, get_vault_balance-register, is_vault-update, is_vault-register,
  pools_for_vault-update, register_vault-pools_for_vault,
}
use flow_trades_solana.Registry.{get, PoolRegistry, contains, member}
use flow_trades_solana.AccountMirror.{
  AccountMirror, is_vault, pools_for_vault, get_vault_balance, update_vault_balance, register_vault,
}
use flow_trades_solana.Byreal.Inputs.{Published}
use flow_trades_solana.BlockRefresh.Mirror.{
  Pass, touch_new, touch_readers, touch_oracle, touch_key, touch_keys, mirrored, mirror_block,
  Transaction,
}
use flow_trades_solana.BlockRefresh.Mirror.Steps.{Allowed, mirror_transactions-P}

module _ (r : PoolRegistry) (before : AccountMirror) where
  -- What a pass keeps of the mirror that it starts with.
  abbrev pub Faithful : AccountMirror → Type 0
  Faithful m =
      ((x : Pubkey) → (get_vault_balance m x ≡ get_vault_balance before x) ⊎ (is_vault m x ≡ true))
      × ((x pool : Pubkey)
          → member pool (pools_for_vault m x) ≡ true
          → (member pool (pools_for_vault before x) ≡ true) ⊎ (contains pool r ≡ true))

  update-Faithful :
      (a : Pubkey) (n : ℕ) (m : AccountMirror)
      → is_vault m a ≡ true
      → Faithful m
      → Faithful (update_vault_balance a n m)
  update-Faithful a n m known (kept, owned) = (
    λ x. ground (arith, get_vault_balance-update a n m x, is_vault-update a n m x, kept x, known),
    λ x pool h. owned x pool (sym (ap (member pool) (pools_for_vault-update a n m x)) ∙ h),
  )

  register-Faithful :
      (a pool : Pubkey) (n : ℕ) (m : AccountMirror)
      → contains pool r ≡ true
      → Faithful m
      → Faithful (register_vault a pool (update_vault_balance a n m))
  register-Faithful a pool n m listed (kept, owned) =
      let u = update_vault_balance a n m in
      (
        λ x. ground (
          arith,
          get_vault_balance-register a pool u x,
          get_vault_balance-update a n m x,
          is_vault-register a pool u x,
          is_vault-update a n m x,
          kept x,
        ),
        λ x y h.
            let now = register_vault-pools_for_vault u a pool x y in
            let same = ap (member y) (pools_for_vault-update a n m x) in
            ground (arith, now, same, h, owned x y, listed),
      )

  mirrored-Faithful :
      (account : Pubkey) (owner : Option Pubkey) (n : ℕ) (p : Pass)
      → Allowed r (is_vault p.mirror account) owner
      → Faithful p.mirror
      → Faithful ((mirrored account (is_vault p.mirror account) owner n p).mirror)
  unfolding mirrored
  mirrored-Faithful account none n p ok h = rw ok (update-Faithful account n p.mirror ok h)
  mirrored-Faithful account (some pool) n p ok h =
      if-both Faithful (is_vault p.mirror account)
        (λ known. update-Faithful account n p.mirror known h)
        λ _. register-Faithful account pool n p.mirror ok h

touch_new-mirror : (k : Pubkey) (t : PoolType) (p : Pass) → (touch_new k t p).mirror ≡ p.mirror
unfolding touch_new
touch_new-mirror k t p =
    if-both (λ (q : Pass). q.mirror ≡ p.mirror) (member k p.seen) (λ _. refl) λ _. refl

touch_readers-mirror : (ks : List Pubkey) (p : Pass) → (touch_readers ks p).mirror ≡ p.mirror
unfolding touch_readers
touch_readers-mirror [] p = refl
touch_readers-mirror (k ∷ ks) p = touch_readers-mirror ks _ ∙ touch_new-mirror k PoolType.byreal p

touch_oracle-mirror :
    (k : Pubkey) (readers : Option (List Pubkey)) (p : Pass)
    → (touch_oracle k readers p).mirror ≡ p.mirror
unfolding touch_oracle
touch_oracle-mirror k none p = refl
touch_oracle-mirror k (some ks) p = touch_readers-mirror ks _

touch_key-mirror :
    (r : PoolRegistry) (published : Published) (k : Pubkey) (p : Pass)
    → (touch_key r published k p).mirror ≡ p.mirror
unfolding touch_key
touch_key-mirror r published k p =
    let Same : Pass → Type 0 = λ q. q.mirror ≡ p.mirror in
    if-both Same (member k p.seen) (λ _. refl)
      λ _.
        Option-both Same (get k r) (touch_oracle-mirror k _ p)
          λ e _. if-both Same _ (λ _. refl) λ _. refl

touch_keys-mirror :
    (r : PoolRegistry) (published : Published) (ks : List Pubkey) (p : Pass)
    → (touch_keys r published ks p).mirror ≡ p.mirror
unfolding touch_keys
touch_keys-mirror r published [] p = refl
touch_keys-mirror r published (k ∷ ks) p =
    touch_keys-mirror r published ks _ ∙ touch_key-mirror r published k p

-- After the pass over a block, the balance of each account is the one before, unless the account is a vault then; and each
-- pool of a vault is one before, or a pool of the registry.
pub mirror_block-Faithful :
    (from_str : String → Option Pubkey) (parse_u64 : String → Option ℕ)
    (transactions : Option (List Transaction)) (r : PoolRegistry) (published : Published)
    (before : AccountMirror)
    → Faithful r before ((mirror_block from_str parse_u64 transactions r published before).1)
unfolding mirror_block
mirror_block-Faithful from_str parse_u64 transactions r published before =
    let start : Pass = record {
      mirror = before;
      seen = [];
      result = record { vault_updates = 0; touched = [] };
    } in
    let txs : List Transaction = elim transactions [ none ↦ [] | some txs ↦ txs ] in
    mirror_transactions-P r published from_str parse_u64 (λ p. Faithful r before p.mirror)
      (mirrored-Faithful r before)
      (λ ks p h. subst (Faithful r before) (sym (touch_keys-mirror r published ks p)) h) txs start
      (λ x. inl refl, λ x pool h. inl h)
