-- ===== src/BlockRefresh/Mirror/Laws.antt =====
-- stream/block_refresh.rs: theorems on the pools that a block's pass collects.
use Prim.Native.String.{String}
use flow_trades_solana.Base.{
  ℕ, Bool, true, false, not, ◌&&◌, ◌≡◌, ◌≢◌, refl, ap, ◌⊎◌, inl, inr, Option, none, some, List, [],
  ◌∷◌, ◌++◌, map, ◌==◌, if◌then◌else◌, All, arith, Bool-cases, Option-cases,
}
use flow_trades_solana.Base.Bytes.{Pubkey}
use flow_trades_solana.PoolType.{PoolType}
use flow_trades_solana.Registry.{PoolRegistry, PoolEntry, get, member}
use flow_trades_solana.Registry.Laws.{Distinct, snoc-Distinct, member_snoc}
use flow_trades_solana.Byreal.Inputs.{Published, pools_reading_oracle}
use flow_trades_solana.BlockRefresh.Mirror.Steps.{mirror_transactions-P}
use flow_trades_solana.AccountMirror.{AccountMirror}
use flow_trades_solana.BlockRefresh.{is_refreshed}
use flow_trades_solana.BlockRefresh.Mirror.{
  Pass, touch, touch_new, touch_readers, touch_oracle, touch_key, touch_keys, mirrored,
  mirror_block, Transaction,
}

abbrev pub pools_of : List (Pubkey × PoolType) → List Pubkey
pools_of = map λ t. t.0

map_snoc :
    (ts : List (Pubkey × PoolType)) (t : Pubkey × PoolType)
    → pools_of (ts ++ (t ∷ [])) ≡ (pools_of ts ++ (t.0 ∷ []))
map_snoc [] t = refl
map_snoc (u ∷ us) t = ap (λ xs. u.0 ∷ xs) (map_snoc us t)

snoc-All {ℓ} :
    {A : Type ℓ} (P : A → Type ℓ) (xs : List A) (x : A) → All P xs → P x → All P (xs ++ (x ∷ []))
snoc-All P [] x h p = (p, tt)
snoc-All P (y ∷ ys) x (h, hs) p = (h, snoc-All P ys x hs p)

module _ (r : PoolRegistry) (published : Published) where
  -- A known pool of a type that is refreshed, with a first mint.
  abbrev pub Priced : Pubkey × PoolType → Type 0
  Priced (k, t) =
      (e : PoolEntry) × (get k r ≡ some e)
      × (e.pool_type ≡ t)
      × (is_refreshed t ≡ true)
      × (e.mint_a ≢ 0)

  -- A pool that reads an oracle.
  abbrev pub Reader : Pubkey × PoolType → Type 0
  Reader (k, t) =
      (t ≡ PoolType.byreal)
      × (oracle : Pubkey) × (pools : List Pubkey) × (pools_reading_oracle published oracle
          ≡ some pools)
      × (member k pools ≡ true)

  abbrev pub Due : Pubkey × PoolType → Type 0
  Due t = Priced t ⊎ Reader t

  record Collected (p : Pass) : Type 0 where
    pub once : Distinct (pools_of p.result.touched)
    pub marked : (x : Pubkey) → member x (pools_of p.result.touched) ≡ true → member x p.seen ≡ true
    pub due : All Due p.result.touched

  touch-Collected :
      (k : Pubkey) (t : PoolType) (p : Pass)
      → member k p.seen ≡ false
      → Due (k, t)
      → Collected p
      → Collected (touch k t p)
  touch-Collected k t p new d c =
      let pools = map_snoc p.result.touched (k, t) in
      let fresh : member k (pools_of p.result.touched) ≡ false = ground (arith, new, c.marked k) in
      record {
        once = rw pools (snoc-Distinct (pools_of p.result.touched) k c.once fresh);
        marked = λ x h. ground (
          arith,
          member_snoc x k p.seen,
          member_snoc x k (pools_of p.result.touched),
          rw pools at h,
          c.marked x,
        );
        due = snoc-All Due p.result.touched (k, t) c.due d;
      }

  touch_new-Collected :
      (k : Pubkey) (t : PoolType) (p : Pass)
      → Due (k, t)
      → Collected p
      → Collected (touch_new k t p)
  unfolding touch_new
  touch_new-Collected k t p d c = elim (Bool-cases (member k p.seen)) [
    | inl e ↦ rw e c
    | inr e ↦ rw e (touch-Collected k t p e d c)
  ]

  touch_readers-Collected :
      (ks : List Pubkey) (p : Pass)
      → All (λ k. Due (k, PoolType.byreal)) ks
      → Collected p
      → Collected (touch_readers ks p)
  unfolding touch_readers
  touch_readers-Collected [] p d c = c
  touch_readers-Collected (k ∷ ks) p (d, ds) c =
      touch_readers-Collected ks (touch_new k PoolType.byreal p) ds
        (touch_new-Collected k PoolType.byreal p d c)

  marked_more :
      (k : Pubkey) (p : Pass) → Collected p → Collected (record p { seen = p.seen ++ (k ∷ []) })
  marked_more k p c = record {
    once = c.once;
    marked = λ x h. ground (arith, member_snoc x k p.seen, c.marked x h);
    due = c.due;
  }

  readers_due :
      (oracle : Pubkey) (pools ks : List Pubkey)
      → pools_reading_oracle published oracle ≡ some pools
      → ((k : Pubkey) → member k ks ≡ true → member k pools ≡ true)
      → All (λ k. Due (k, PoolType.byreal)) ks
  unfolding member
  readers_due oracle pools [] e within = tt
  readers_due oracle pools (k ∷ ks) e within = (
    inr (refl, oracle, pools, e, within k (ground arith)),
    readers_due oracle pools ks e λ x h. within x (ground (arith, h)),
  )

  touch_oracle-Collected :
      (k : Pubkey) (p : Pass)
      → Collected p
      → Collected (touch_oracle k (pools_reading_oracle published k) p)
  unfolding touch_oracle
  touch_oracle-Collected k p c = elim (Option-cases (pools_reading_oracle published k)) [
    | inl e ↦ rw e c
    | inr (pools, e) ↦
        rw e (
          touch_readers-Collected pools _ (readers_due k pools pools e λ x h. h)
            (marked_more k p c))
  ]

  touch_entry-Collected :
      (k : Pubkey) (e : PoolEntry) (p : Pass)
      → get k r ≡ some e
      → member k p.seen ≡ false
      → Collected p
      → Collected
          (if is_refreshed e.pool_type && not (e.mint_a == 0) then touch k e.pool_type p else p)
  touch_entry-Collected k e p found new c =
      elim (Bool-cases (is_refreshed e.pool_type && not (e.mint_a == 0))) [
        | inl h ↦
            let refreshed : is_refreshed e.pool_type ≡ true = ground (arith, h) in
            rw h (
              touch-Collected k e.pool_type p new
                (inl (e, found, refl, refreshed, λ z. ground (arith, h, z))) c)
        | inr h ↦ rw h c
      ]

  touch_key-Collected :
      (k : Pubkey) (p : Pass) → Collected p → Collected (touch_key r published k p)
  unfolding touch_key
  touch_key-Collected k p c = elim (Bool-cases (member k p.seen)) [
    | inl e ↦ rw e c
    | inr new ↦ rw new (elim (Option-cases (get k r)) [
      | inl e ↦ rw e (touch_oracle-Collected k p c)
      | inr (entry, e) ↦ rw e (touch_entry-Collected k entry p e new c)
    ])
  ]

  touch_keys-Collected :
      (ks : List Pubkey) (p : Pass) → Collected p → Collected (touch_keys r published ks p)
  unfolding touch_keys
  touch_keys-Collected [] p c = c
  touch_keys-Collected (k ∷ ks) p c =
      touch_keys-Collected ks (touch_key r published k p) (touch_key-Collected k p c)

  mirrored-Collected :
      (account : Pubkey) (known : Bool) (owner : Option Pubkey) (balance : ℕ) (p : Pass)
      → Collected p
      → Collected (mirrored account known owner balance p)
  unfolding mirrored
  mirrored-Collected account known owner balance p c = record {
    once = c.once;
    marked = c.marked;
    due = c.due;
  }

-- The pools that a block's pass collects are each collected once, and each is a known pool of a type that is refreshed with
-- a first mint that is not zero, or a pool that is published as a reader of an oracle.
pub mirror_block_collects :
    (from_str : String → Option Pubkey) (parse_u64 : String → Option ℕ)
    (transactions : Option (List Transaction)) (r : PoolRegistry) (published : Published)
    (mirror : AccountMirror)
    → let touched = (mirror_block from_str parse_u64 transactions r published mirror).0.touched in
      Distinct (pools_of touched) × All (Due r published) touched
unfolding mirror_block
mirror_block_collects from_str parse_u64 transactions r published mirror =
    let start : Pass = record {
      mirror = mirror;
      seen = [];
      result = record { vault_updates = 0; touched = [] };
    } in
    let empty : Collected r published start = record { once = tt; marked = λ x h. h; due = tt } in
    let txs : List Transaction = elim transactions [ none ↦ [] | some txs ↦ txs ] in
    let c =
      mirror_transactions-P r published from_str parse_u64 (Collected r published)
        (λ account owner n p _. mirrored-Collected r published account _ owner n p)
        (touch_keys-Collected r published) txs start empty in
    (c.once, c.due)
