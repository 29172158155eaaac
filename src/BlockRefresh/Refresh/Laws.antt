-- ===== src/BlockRefresh/Refresh/Laws.antt =====
-- stream/block_refresh.rs: the re-read of touched pools gives back each pool that it claims, on every path.
use flow_trades_solana.Base.{
  ℕ, ◌≡◌, ◌⊎◌, refl, ap, ◌∙◌, true, false, ◌||◌, Option, some, List, [], ◌∷◌, map, ◌==◌,
  if◌then◌else◌, length, arith, inl, inr, Bool-cases, if-both, Option-both,
}
use flow_trades_solana.Base.Bytes.{Pubkey}
use flow_trades_solana.PoolCache.{PoolCache}
use flow_trades_solana.Registry.{member}
use flow_trades_solana.Byreal.Inputs.{Account}
use flow_trades_solana.BlockRefresh.Refresh.{
  Touched, Context, Outside, meteora_part, other_part, retain_cached, chosen, claim_all, insert_all,
  fresh_states, refresh_others, refresh_touched, max_state_refresh_per_block,
}
use flow_trades_solana.BlockRefresh.Refresh.Claims.{
  pools_in, insert_all-Within, Released, released, claim_all_lem, retain_idle_lem, member-take,
  member_parts,
}
use flow_trades_solana.BlockRefresh.Refresh.Standard.{Answers, SixKeys, meteora_reads-Released}

module _ {PoolState : Type 0} (outside : Outside PoolState) (now later : ℕ) where
  abbrev others_reads : List Touched → ℕ → Context PoolState → (ℕ × ℕ) × Context PoolState
  others_reads = refresh_others outside now later

  abbrev states :
      PoolCache PoolState → List Touched → List (Option Account) → List (Pubkey × PoolState)
  states = fresh_states outside now later

  states_apart :
      (c : PoolCache PoolState) (ts : List Touched) (accounts : List (Option Account)) (x : Pubkey)
      → member x (pools_in ts) ≡ false
      → member x (map (λ s. s.0) (states c ts accounts)) ≡ false
  unfolding fresh_states member
  states_apart c [] accounts x h = refl
  states_apart c (t ∷ ts) [] x h = refl
  states_apart c (t ∷ ts) (a ∷ accounts) x h =
      let rest = states_apart c ts accounts x (ground (arith, h)) in
      Option-both (λ (fs : List (Pubkey × PoolState)). member x (map (λ s. s.0) fs) ≡ false) _
        {f = λ st. (t.0, st) ∷ states c ts accounts} rest λ st e. ground (arith, h, rest)

  others_reads-Released :
      (ts : List Touched) (n : ℕ) (ctx : Context PoolState)
      → Released ts ctx ((others_reads ts n ctx).1)
  unfolding refresh_others
  others_reads-Released ts n ctx =
      Option-both (λ (r : (ℕ × ℕ) × Context PoolState). Released ts ctx (r.1)) _
        (released ts ctx ctx (record { flights = λ x. refl; elsewhere = λ x h. refl }))
        λ accounts _.
          let fresh = states ctx.cache ts accounts in
          let w = insert_all-Within later fresh ctx in
          released ts ctx (insert_all later fresh ctx) (record {
            flights = w.flights;
            elsewhere = λ x h. w.elsewhere x (states_apart ctx.cache ts accounts x h);
          })

  -- The pools that a call claims were idle.
  chosen_idle :
      (ctx : Context PoolState) (touched : List Touched) (x : Pubkey)
      → member x (pools_in (chosen ctx now touched)) ≡ true
      → ctx.in_flight x ≡ false
  unfolding chosen
  chosen_idle ctx touched x h =
      retain_idle_lem ctx.in_flight x (retain_cached ctx.cache now touched)
        (member-take x max_state_refresh_per_block _ h)

  abbrev call : List Touched → Context PoolState → Option ((ℕ × ℕ) × Context PoolState)
  call = refresh_touched outside now later

  -- What a call promises of the context after it.
  abbrev pub Refreshed : List Touched → Context PoolState → Context PoolState → Type 0
  Refreshed touched before after =
      ((x : Pubkey) → after.in_flight x ≡ before.in_flight x)
      × ((x : Pubkey)
          → (member x (pools_in (chosen before now touched)) ≡ true)
            ⊎ (after.cache.inner x ≡ before.cache.inner x))

  finished :
      (picked : List Touched) (x : Pubkey) (before claimed mid after : Context PoolState)
      → (claimed.in_flight x ≡ (member x (pools_in picked) || before.in_flight x))
        × (claimed.cache ≡ before.cache)
      → (member x (pools_in picked) ≡ true → before.in_flight x ≡ false)
      → Released (meteora_part picked) claimed mid
      → Released (other_part picked) mid after
      → (after.in_flight x ≡ before.in_flight x)
        × ((member x (pools_in picked) ≡ true) ⊎ (after.cache.inner x ≡ before.cache.inner x))
  finished picked x before claimed mid after (claim, same) idle m o =
      let parts = member_parts x picked in
      (
        ground (arith, claim, idle, m.freed x, o.freed x, parts),
        elim (Bool-cases (member x (pools_in picked))) [
          | inl e ↦ inl e
          | inr e ↦ inr (
              o.untouched x (ground (arith, parts, e))
              ∙ m.untouched x (ground (arith, parts, e))
              ∙ ap (λ c. c.inner x) same)
        ],
      )

  none_in :
      (ts : List Touched) (x : Pubkey) → (length ts == 0) ≡ true → member x (pools_in ts) ≡ false
  unfolding member
  none_in [] x h = refl
  none_in (t ∷ ts) x h = ground (arith, h)

  others_step :
      (ts : List Touched) (n : ℕ) (mid : Context PoolState)
      → Released ts mid ((if length ts == 0 then ((n, 0), mid) else others_reads ts n mid).1)
  others_step ts n mid =
      if-both (λ (r : (ℕ × ℕ) × Context PoolState). Released ts mid (r.1)) (length ts == 0)
        (λ e. record { freed = λ x. ground (arith, none_in ts x e); untouched = λ x h. refl })
        λ _. others_reads-Released ts n mid

  -- Where a read that succeeds answers for each key, and the reserves of a Standard pool are six accounts, the re-read of
  -- touched pools finishes without a panic, on every answer and failure of the reads; after it the same pools are in
  -- flight as before it, so that each pool that it claimed is released; and the cache is as before but for the pools that
  -- it chose.
  pub refresh_touched-Refreshed :
      (touched : List Touched) (ctx : Context PoolState)
      → Answers outside now later
      → SixKeys outside now later
      → (r : (ℕ × ℕ) × Context PoolState) × (call touched ctx ≡ some r)
        × Refreshed touched ctx (r.1)
  unfolding refresh_touched
  refresh_touched-Refreshed touched ctx answers sixes =
      let picked = chosen ctx now touched in
      elim (Bool-cases (length picked == 0)) [
        | inl e ↦ (((0, 0), ctx), rw e refl, (λ (x : Pubkey). refl, λ (x : Pubkey). inr refl))
        | inr e ↦
            let claimed = claim_all picked ctx in
            let (mid, e1, m) =
              meteora_reads-Released outside now later (meteora_part picked) claimed answers
                sixes in
            let others = other_part picked in
            let r : (ℕ × ℕ) × Context PoolState =
              if length others == 0
              then ((mid.0, 0), mid.1)
              else others_reads others (mid.0) (mid.1) in
            let all : (x : Pubkey)
                → ((r.1).in_flight x ≡ ctx.in_flight x)
                  × ((member x (pools_in picked) ≡ true)
                      ⊎ ((r.1).cache.inner x ≡ ctx.cache.inner x)) =
              λ x.
                finished picked x ctx claimed (mid.1) (r.1) (claim_all_lem picked ctx x)
                  (chosen_idle ctx touched x) m (others_step others (mid.0) (mid.1)) in
            (r, rw e (rw e1 refl), (λ (x : Pubkey). (all x).0, λ (x : Pubkey). (all x).1))
      ]
