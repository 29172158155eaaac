-- ===== src/BlockRefresh/Refresh/Claims.antt =====
-- stream/block_refresh.rs: what the steps of the re-read do to the pools in flight and to the cache.
use flow_trades_solana.Base.{
  ℕ, zero, suc, ◌≡◌, refl, ap, ◌∙◌, Bool, true, false, not, ◌&&◌, ◌||◌, List, [], ◌∷◌, map, ◌==◌,
  if◌then◌else◌, arith, inl, inr, Bool-cases, ==_iff,
}
use flow_trades_solana.Base.Bytes.{Pubkey, take}
use flow_trades_solana.PoolCache.{insert}
use flow_trades_solana.PoolCache.Laws.{insert_elsewhere}
use flow_trades_solana.Registry.{member}
use flow_trades_solana.BlockRefresh.Refresh.{
  Touched, Context, is_meteora, meteora_part, other_part, retain_idle, claim_all, release_all,
  insert_all,
}

abbrev pub pools_in : List Touched → List Pubkey
pools_in = map λ t. t.0

pub member_parts :
    (x : Pubkey) (ts : List Touched)
    → member x (pools_in ts)
      ≡ (member x (pools_in (meteora_part ts)) || member x (pools_in (other_part ts)))
unfolding member meteora_part other_part
member_parts x [] = refl
member_parts x (t ∷ ts) = elim (Bool-cases (is_meteora (t.1))) [
  | inl e ↦ rw e (ground (arith, member_parts x ts))
  | inr e ↦ rw e (ground (arith, member_parts x ts))
]

pub retain_idle_lem :
    (f : Pubkey → Bool) (x : Pubkey) (ts : List Touched)
    → member x (pools_in (retain_idle f ts)) ≡ true
    → f x ≡ false
unfolding member retain_idle
retain_idle_lem f x [] h = ground (arith, h)
retain_idle_lem f x (t ∷ ts) h = elim (Bool-cases (f (t.0))) [
  | inl e ↦ retain_idle_lem f x ts (rw e at h)
  | inr e ↦ elim (Bool-cases (x == t.0)) [
    | inl same ↦ ap f ((==_iff x (t.0)).0 same) ∙ e
    | inr other ↦ retain_idle_lem f x ts (rw (e, other) at h)
  ]
]

pub member-take :
    (x : Pubkey) (n : ℕ) (ts : List Touched)
    → member x (pools_in (take n ts)) ≡ true
    → member x (pools_in ts) ≡ true
unfolding member
member-take x zero [] h = h
member-take x zero (t ∷ ts) h = ground (arith, h)
member-take x (suc n) [] h = h
member-take x (suc n) (t ∷ ts) h = ground (arith, h, member-take x n ts)

module _ {PoolState : Type 0} where
  -- The pools that are in flight are the same, and the cache is the same but for some pools.
  pub record Within (pools : List Pubkey) (before after : Context PoolState) : Type 0 where
    pub flights : (x : Pubkey) → after.in_flight x ≡ before.in_flight x
    pub elsewhere :
        (x : Pubkey) → member x pools ≡ false → after.cache.inner x ≡ before.cache.inner x

  pub Within-trans :
      (xs ys zs : List Pubkey) {a b c : Context PoolState}
      → Within xs a b
      → Within ys b c
      → ((x : Pubkey) → member x zs ≡ false → (member x xs ≡ false) × (member x ys ≡ false))
      → Within zs a c
  Within-trans xs ys zs v w apart = record {
    flights = λ x. w.flights x ∙ v.flights x;
    elsewhere = λ x h. w.elsewhere x ((apart x h).1) ∙ v.elsewhere x ((apart x h).0);
  }

  pub kept-Within :
      (b : Bool) (k : Pubkey) (st : PoolState) (later : ℕ) (ctx : Context PoolState)
      → Within (k ∷ []) ctx (if b then record ctx { cache = insert k st later ctx.cache } else ctx)
  unfolding member
  kept-Within true k st later ctx = record {
    flights = λ x. refl;
    elsewhere = λ x h. insert_elsewhere k st later ctx.cache x (ground (arith, h));
  }
  kept-Within false k st later ctx = record { flights = λ x. refl; elsewhere = λ x h. refl }

  pub claim_all_lem :
      (ts : List Touched) (ctx : Context PoolState) (x : Pubkey)
      → ((claim_all ts ctx).in_flight x ≡ (member x (pools_in ts) || ctx.in_flight x))
        × ((claim_all ts ctx).cache ≡ ctx.cache)
  unfolding claim_all member
  claim_all_lem [] ctx x = (refl, refl)
  claim_all_lem (t ∷ ts) ctx x =
      let (f, c) =
        claim_all_lem ts (record ctx { in_flight = λ x. x == t.0 || ctx.in_flight x }) x in
      (ground (arith, f), c)

  pub release_all_lem :
      (ts : List Touched) (ctx : Context PoolState) (x : Pubkey)
      → ((release_all ts ctx).in_flight x ≡ (not (member x (pools_in ts)) && ctx.in_flight x))
        × ((release_all ts ctx).cache ≡ ctx.cache)
  unfolding release_all member
  release_all_lem [] ctx x = (refl, refl)
  release_all_lem (t ∷ ts) ctx x =
      let (f, c) =
        release_all_lem ts (record ctx { in_flight = λ x. not (x == t.0) && ctx.in_flight x }) x in
      (ground (arith, f), c)

  pub insert_all-Within :
      (later : ℕ) (fresh : List (Pubkey × PoolState)) (ctx : Context PoolState)
      → Within (map (λ s. s.0) fresh) ctx (insert_all later fresh ctx)
  unfolding insert_all member
  insert_all-Within later [] ctx = record { flights = λ x. refl; elsewhere = λ x h. refl }
  insert_all-Within later ((k, st) ∷ rest) ctx =
      let w = insert_all-Within later rest (record ctx { cache = insert k st later ctx.cache }) in
      record {
        flights = w.flights;
        elsewhere = λ x h.
            w.elsewhere x (ground (arith, h))
            ∙ insert_elsewhere k st later ctx.cache x (ground (arith, h));
      }

  -- What a part of the call does, on the pools that it was given: they are released.
  pub record Released (ts : List Touched) (before after : Context PoolState) : Type 0 where
    pub freed :
        (x : Pubkey) → after.in_flight x ≡ (not (member x (pools_in ts)) && before.in_flight x)
    pub untouched :
        (x : Pubkey) → member x (pools_in ts) ≡ false → after.cache.inner x ≡ before.cache.inner x

  pub released :
      (ts : List Touched) (before after : Context PoolState)
      → Within (pools_in ts) before after
      → Released ts before (release_all ts after)
  released ts before after w = record {
    freed = λ x.
        (release_all_lem ts after x).0 ∙ ap (λ b. not (member x (pools_in ts)) && b) (w.flights x);
    untouched = λ x h. ap (λ c. c.inner x) ((release_all_lem ts after x).1) ∙ w.elsewhere x h;
  }
