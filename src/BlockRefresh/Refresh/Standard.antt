-- ===== src/BlockRefresh/Refresh/Standard.antt =====
-- stream/block_refresh.rs: the pools of the Standard venue that are read again are released.
use flow_trades_solana.Base.{
  ℕ, zero, suc, ◌+◌, ◌*◌, ◌≤◌, ◌≡◌, refl, true, false, Option, some, List, [], ◌∷◌, map, leb,
  if◌then◌else◌, length, All, arith, inl, inr, Option-cases, Option-both, answered,
}
use flow_trades_solana.Base.Bytes.{Pubkey, take, drop}
use flow_trades_solana.Base.Bytes.Laws.{length-append}
use flow_trades_solana.Base.Positions.{length-drop, All-take, All-drop}
use flow_trades_solana.PoolCache.{PoolCache, get, insert}
use flow_trades_solana.Registry.{member}
use flow_trades_solana.Byreal.Inputs.{Account}
use flow_trades_solana.BlockRefresh.Refresh.{
  Touched, Context, Plan, Outside, release_all, plan_of, plans, plan_keys, refresh_chunk,
  refresh_chunks, refresh_meteora_std,
}
use flow_trades_solana.BlockRefresh.Refresh.Claims.{
  pools_in, Within, Within-trans, kept-Within, Released, released,
}

module _ {PoolState : Type 0} (outside : Outside PoolState) (now later : ℕ) where
  abbrev plans_of : PoolCache PoolState → List Touched → List (Plan PoolState)
  plans_of = plans outside now later

  abbrev chunk :
      List (Plan PoolState)
      → List (Option Account)
      → ℕ
      → Context PoolState
      → Option (ℕ × Context PoolState)
  chunk = refresh_chunk outside now later

  abbrev chunks : ℕ → List (Plan PoolState) → ℕ → Context PoolState → Option (ℕ × Context PoolState)
  chunks = refresh_chunks outside now later

  abbrev keys_of : List (Plan PoolState) → List Pubkey
  keys_of = plan_keys outside now later

  abbrev planned : List (Plan PoolState) → List Pubkey
  planned = map λ p. p.0

  chunk-Within :
      (ps : List (Plan PoolState)) (accounts : List (Option Account)) (done : ℕ)
      (ctx : Context PoolState)
      → 6 * length ps ≤ length accounts
      → (r : ℕ × Context PoolState) × (chunk ps accounts done ctx ≡ some r)
        × Within (planned ps) ctx (r.1)
  unfolding refresh_chunk member
  chunk-Within [] accounts done ctx h =
      ((done, ctx), refl, record { flights = λ x. refl; elsewhere = λ x h. refl })
  chunk-Within ((pool, st, keys) ∷ ps) accounts done ctx h =
      let (next, flag) = outside.refresh_meteora_std_from st (take 6 accounts) in
      let kept : Context PoolState =
        if flag then record ctx { cache = insert pool next later ctx.cache } else ctx in
      let enough : leb 6 (length accounts) ≡ true = ground (arith, h) in
      let (r, e, w) =
        chunk-Within ps (drop 6 accounts) (if flag then done + 1 else done) kept
          (omega (arith, h, length-drop 6 accounts)) in
      (
        r,
        rw enough e,
        Within-trans (pool ∷ []) (planned ps) (pool ∷ planned ps)
            (kept-Within flag pool next later ctx) w
            λ x out. (ground (arith, out), ground (arith, out)),
      )

  -- A plan asks for six accounts.
  abbrev Six : Plan PoolState → Type 0
  Six p = length (p.2) ≡ 6

  -- A read that succeeds answers for each key.
  abbrev pub Answers : Type 0
  Answers =
      (keys : List Pubkey) (accounts : List (Option Account))
      → outside.get_multiple_accounts keys ≡ some accounts
      → length accounts ≡ length keys

  length-keys_of : (ps : List (Plan PoolState)) → All Six ps → length (keys_of ps) ≡ 6 * length ps
  unfolding plan_keys
  length-keys_of [] h = refl
  length-keys_of ((pool, st, keys) ∷ ps) (h, hs) =
      omega (arith, length-append keys (keys_of ps), length-keys_of ps hs, h)

  apart_parts :
      (n : ℕ) (ps : List (Plan PoolState)) (x : Pubkey)
      → member x (planned ps) ≡ false
      → (member x (planned (take n ps)) ≡ false) × (member x (planned (drop n ps)) ≡ false)
  unfolding member
  apart_parts n [] x h = (refl, refl)
  apart_parts zero (p ∷ ps) x h = (refl, h)
  apart_parts (suc n) (p ∷ ps) x h =
      let (first, rest) = apart_parts n ps x (ground (arith, h)) in (ground (arith, h, first), rest)

  chunks-Within :
      (fuel : ℕ) (ps : List (Plan PoolState)) (done : ℕ) (ctx : Context PoolState)
      → Answers
      → All Six ps
      → (r : ℕ × Context PoolState) × (chunks fuel ps done ctx ≡ some r)
        × Within (planned ps) ctx (r.1)
  unfolding refresh_chunks
  chunks-Within zero ps done ctx answers six =
      ((done, ctx), refl, record { flights = λ x. refl; elsewhere = λ x h. refl })
  chunks-Within (suc fuel) [] done ctx answers six =
      ((done, ctx), refl, record { flights = λ x. refl; elsewhere = λ x h. refl })
  chunks-Within (suc fuel) (p ∷ ps) done ctx answers six =
      let all = p ∷ ps in
      elim (Option-cases (outside.get_multiple_accounts (keys_of (take 16 all)))) [
        | inl e ↦ (
          (done, ctx),
          rw (e, refresh_chunks) refl,
          record { flights = λ x. refl; elsewhere = λ x h. refl },
        )
        | inr (accounts, e) ↦
            let counted = length-keys_of (take 16 all) (All-take Six 16 all six) in
            let (first, e1, w1) =
              chunk-Within (take 16 all) accounts done ctx
                (omega (arith, counted, answers _ accounts e)) in
            let (last, e2, w2) =
              chunks-Within fuel (drop 16 all) (first.0) (first.1) answers
                (All-drop Six 16 all six) in
            (last, rw (e, refresh_chunks) (rw e1 e2), Within-trans _ _ _ w1 w2 (apart_parts 16 all))
      ]

  abbrev pub SixKeys : Type 0
  SixKeys =
      (st : PoolState) (keys : List Pubkey)
      → outside.meteora_std_refresh_keys st ≡ some keys
      → length keys ≡ 6

  planned_at :
      (c : PoolCache PoolState) (pool : Pubkey) (p : Plan PoolState)
      → SixKeys
      → plan_of outside now later c pool ≡ some p
      → (p.0 ≡ pool) × Six p
  unfolding plan_of
  planned_at c pool p sixes h =
      let (st, _, h) = answered (get c pool now) h in
      let (keys, e, h) = answered (outside.meteora_std_refresh_keys st) h in
      let six = sixes st keys e in ground (arith, h, six)

  plans-Six : (c : PoolCache PoolState) (ts : List Touched) → SixKeys → All Six (plans_of c ts)
  unfolding plans
  plans-Six c [] sixes = tt
  plans-Six c (t ∷ ts) sixes =
      let rest = plans-Six c ts sixes in
      Option-both (All Six) _ {f = λ p. p ∷ plans_of c ts} rest
        λ p e. ((planned_at c (t.0) p sixes e).1, rest)

  plans_apart :
      (c : PoolCache PoolState) (ts : List Touched) (x : Pubkey)
      → SixKeys
      → member x (pools_in ts) ≡ false
      → member x (planned (plans_of c ts)) ≡ false
  unfolding plans member
  plans_apart c [] x sixes h = refl
  plans_apart c (t ∷ ts) x sixes h =
      let rest = plans_apart c ts x sixes (ground (arith, h)) in
      Option-both (λ ps. member x (planned ps) ≡ false) _ rest
        λ p e. let (same, _) = planned_at c (t.0) p sixes e in rw same (ground (arith, h, rest))

  abbrev pub meteora_reads : List Touched → Context PoolState → Option (ℕ × Context PoolState)
  meteora_reads = refresh_meteora_std outside now later

  pub meteora_reads-Released :
      (ts : List Touched) (ctx : Context PoolState)
      → Answers
      → SixKeys
      → (r : ℕ × Context PoolState) × (meteora_reads ts ctx ≡ some r) × Released ts ctx (r.1)
  unfolding refresh_meteora_std
  meteora_reads-Released ts ctx answers sixes =
      let ps = plans_of ctx.cache ts in
      let (r, e, w) = chunks-Within (length ps) ps 0 ctx answers (plans-Six ctx.cache ts sixes) in
      let within : Within (pools_in ts) ctx (r.1) = record {
        flights = w.flights;
        elsewhere = λ x h. w.elsewhere x (plans_apart ctx.cache ts x sixes h);
      } in
      ((r.0, release_all ts (r.1)), rw e refl, released ts ctx (r.1) within)
