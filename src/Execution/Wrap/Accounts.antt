-- ===== src/Execution/Wrap/Accounts.antt =====
-- execution/router.rs: theorems on the accounts of the wrapped instruction.
use flow_trades_solana.Base.{
  ℕ, zero, suc, ◌+◌, ◌≡◌, refl, sym, ap, ◌∙◌, true, false, ◌==◌, ◌>>=◌, if◌then◌else◌, Option, none,
  some, List, [], ◌∷◌, ◌++◌, map, length, get_elem?, arith, inl, inr, Option-cases,
}
use flow_trades_solana.Base.Bytes.{Pubkey, take}
use flow_trades_solana.Base.Wire.{key_bytes}
use flow_trades_solana.Base.Bytes.Laws.{length-append}
use flow_trades_solana.Base.Positions.{
  get_elem?-append_left, get_elem?-append_right, get_elem?-map, length-map,
}
use flow_trades_solana.Registry.{member}
use flow_trades_solana.Registry.Laws.{Distinct}
use flow_trades_solana.Execution.{AccountMeta, writable, readonly, Instruction, ok}
use flow_trades_solana.Execution.Wrap.{
  RouterConfig, layout, dex_accounts, new_programs, mint_account, config_pda, integrator_account,
  integrator_seed, config_seed, flow_router_program_id, swap_accounts, wrap_swap,
}
use flow_trades_solana.Execution.Wrap.Hops.{
  programs, new_programs_lem, accounts_of, length_of, MintAt, mint_first, length-dex_accounts,
  dex_account_of,
}
use flow_trades_solana.Execution.Wrap.Laws.{wrap_swap_accepted}

module _ (find_program_address : (seeds : List (List ℕ)) → (program_id : Pubkey) → Pubkey × ℕ)
    (c : RouterConfig) (payer : Pubkey) (token_accounts : List Pubkey) (fee : Pubkey)
    (referral : Option Pubkey) (ixs : List Instruction) (token_program output_mint : Pubkey) where
  abbrev listed : List AccountMeta
  listed =
      swap_accounts find_program_address c payer token_accounts fee referral ixs token_program
        output_mint

  -- The account after the fee's, the programs that follow the hops' accounts, and the account that ends the list.
  abbrev pub referral_or_program : Pubkey
  referral_or_program = elim referral [ none ↦ c.program_id | some account ↦ account ]

  abbrev pub called : List Pubkey
  called = new_programs [] ixs

  abbrev pub integrator : Option AccountMeta
  integrator = do
    account ← referral
    wallet ← c.referral_wallet
    some (
        readonly (find_program_address (integrator_seed ∷ key_bytes wallet ∷ []) c.program_id).0
          false)

  -- One with the output mint, else none.
  abbrev pub extra : ℕ
  extra = if c.program_id == flow_router_program_id then 0 else 1

  abbrev after_fixed : List AccountMeta
  after_fixed =
      dex_accounts ixs
      ++ (map (λ k. readonly k false) (new_programs [] ixs)
          ++ integrator_account find_program_address c referral)

  fixed_at :
      (i j : ℕ)
      → length token_accounts ≡ length ixs + 1
      → j ≡ length ixs + 2 + i
      → get_elem? listed j
        ≡ get_elem?
            (readonly (config_pda find_program_address c.program_id) false
              ∷ writable fee false
              ∷ writable (elim referral [ none ↦ c.program_id | some account ↦ account ]) false
              ∷ readonly token_program false
              ∷ (mint_account (layout c) output_mint ++ after_fixed))
            i
  unfolding swap_accounts
  fixed_at i zero h e = absurd (omega (arith, e))
  fixed_at i (suc j) h e =
      get_elem?-append_right (map (λ k. writable k false) token_accounts) _ i j
        (omega (arith, h, e, length-map (λ k. writable k false) token_accounts))

  token_account_at :
      (i : ℕ) (k : Pubkey)
      → get_elem? token_accounts i ≡ some k
      → get_elem? listed (suc i) ≡ some (writable k false)
  unfolding swap_accounts
  token_account_at i k h =
      get_elem?-append_left (map (λ k. writable k false) token_accounts) _ i _
        (get_elem?-map (λ k. writable k false) token_accounts i k h)

  length-mint_account : length (mint_account (layout c) output_mint) ≡ extra
  unfolding mint_account layout
  length-mint_account = ground arith

  integrator-integrator_account :
      (get_elem? (integrator_account find_program_address c referral) 0 ≡ integrator)
      × (length (integrator_account find_program_address c referral) ≡ length_of integrator)
  unfolding integrator_account
  integrator-integrator_account = elim (Option-cases referral) [
    | inl e ↦ rw e (refl, refl)
    | inr (account, e) ↦ elim (Option-cases c.referral_wallet) [
      | inl e1 ↦ rw (e, e1) (refl, refl)
      | inr (wallet, e1) ↦ rw (e, e1) (refl, refl)
    ]
  ]

  mint_at :
      length token_accounts ≡ length ixs + 1
      → MintAt (c.program_id == flow_router_program_id) listed (length ixs + 6) output_mint
  unfolding layout
  mint_at h =
      mint_first (c.program_id == flow_router_program_id) listed after_fixed (length ixs + 6)
        output_mint (fixed_at 4 (length ixs + 6) h (omega arith))

  dexes_at :
      (i j : ℕ)
      → length token_accounts ≡ length ixs + 1
      → j ≡ length ixs + 6 + extra + i
      → get_elem? listed j ≡ get_elem? after_fixed i
  dexes_at i j h e =
      fixed_at (suc (suc (suc (suc (extra + i))))) j h (omega (arith, e))
      ∙ get_elem?-append_right (mint_account (layout c) output_mint) after_fixed i (extra + i)
          (ap (λ n. n + i) (sym length-mint_account))

  dex_account_at :
      (h i j : ℕ) (hop : Instruction) (a : AccountMeta)
      → length token_accounts ≡ length ixs + 1
      → j ≡ length ixs + 6 + extra + accounts_of (take h ixs) + i
      → get_elem? ixs h ≡ some hop
      → get_elem? hop.accounts i ≡ some a
      → get_elem? listed j ≡ some a
  dex_account_at h i j hop a counted e eh g =
      dexes_at (accounts_of (take h ixs) + i) j counted (omega (arith, e))
      ∙ get_elem?-append_left (dex_accounts ixs) _ (accounts_of (take h ixs) + i) a
          (dex_account_of ixs h i hop a eh g)

  tail_at :
      (i j : ℕ)
      → length token_accounts ≡ length ixs + 1
      → j ≡ length ixs + 6 + extra + accounts_of ixs + i
      → get_elem? listed j
        ≡ get_elem?
            (map (λ k. readonly k false) called
              ++ integrator_account find_program_address c referral)
            i
  tail_at i j h e =
      dexes_at (accounts_of ixs + i) j h (omega (arith, e))
      ∙ get_elem?-append_right (dex_accounts ixs) _ i (accounts_of ixs + i)
          (ap (λ n. n + i) (sym (length-dex_accounts ixs)))

  program_at :
      (i j : ℕ) (k : Pubkey)
      → length token_accounts ≡ length ixs + 1
      → j ≡ length ixs + 6 + extra + accounts_of ixs + i
      → get_elem? called i ≡ some k
      → get_elem? listed j ≡ some (readonly k false)
  program_at i j k h e g =
      tail_at i j h e
      ∙ get_elem?-append_left (map (λ p. readonly p false) called) _ i _
          (get_elem?-map (λ p. readonly p false) called i k g)

  integrator_at :
      (j : ℕ)
      → length token_accounts ≡ length ixs + 1
      → j ≡ length ixs + 6 + extra + accounts_of ixs + length called
      → get_elem? listed j ≡ integrator
  integrator_at j h e =
      tail_at (length called) j h e
      ∙ get_elem?-append_right (map (λ p. readonly p false) called) _ 0 (length called)
          (omega (arith, length-map (λ p. readonly p false) called))
      ∙ integrator-integrator_account.0

  length-listed :
      length token_accounts ≡ length ixs + 1
      → length listed
        ≡ length ixs + 6 + extra + accounts_of ixs + length called + length_of integrator
  unfolding swap_accounts
  length-listed h =
      simp (length-append, length-map)
        (omega
          (arith, h, length-mint_account, length-dex_accounts ixs, integrator-integrator_account.1))

  -- In a wrapped instruction of N hops the payer stands at 0 and signs; the token accounts, writable, follow from 1; the
  -- config PDA stands at N + 2, the fee account at N + 3, the referral account, or the router program without one, at
  -- N + 4, the token program at N + 5, and with another program than the deployed router's the output mint at N + 6. Then
  -- come the accounts of the hops, each hop's after those of the hops before it; then the programs of the hops, none
  -- twice and no others; and last, where there are a referral account and a referral wallet, the integrator's PDA.
  pub wrap_swap_accounts :
      (amount_in min_amount_out : ℕ) {ix : Instruction} (i : ℕ) (account : Pubkey) (h j : ℕ)
      (hop : Instruction) (meta : AccountMeta) (m : ℕ) (program : Pubkey)
      → wrap_swap find_program_address c payer token_accounts fee referral ixs amount_in
          min_amount_out token_program output_mint
        ≡ ok ix
      → get_elem? token_accounts i ≡ some account
      → get_elem? ixs h ≡ some hop
      → get_elem? hop.accounts j ≡ some meta
      → get_elem? called m ≡ some program
      → let n = length ixs in
        let at = get_elem? ix.accounts in
        (at 0 ≡ some (readonly payer true))
        × (at (suc i) ≡ some (writable account false))
        × (at (n + 2)
            ≡ some (readonly (find_program_address (config_seed ∷ []) c.program_id).0 false))
        × (at (n + 3) ≡ some (writable fee false))
        × (at (n + 4) ≡ some (writable referral_or_program false))
        × (at (n + 5) ≡ some (readonly token_program false))
        × MintAt (c.program_id == flow_router_program_id) ix.accounts (n + 6) output_mint
        × (at (n + 6 + extra + accounts_of (take h ixs) + j) ≡ some meta)
        × Distinct called
        × ((x : Pubkey) → member x called ≡ member x (programs ixs))
        × (at (n + 6 + extra + accounts_of ixs + m) ≡ some (readonly program false))
        × (at (n + 6 + extra + accounts_of ixs + length called) ≡ integrator)
        × (length ix.accounts
            ≡ n + 6 + extra + accounts_of ixs + length called + length_of integrator)
  unfolding swap_accounts config_pda
  wrap_swap_accounts amount_in min_amount_out i account h j hop meta m program accepted hi hh hj
        hm =
      let (_, counted, e) =
        wrap_swap_accepted find_program_address c payer token_accounts fee referral ixs amount_in
          min_amount_out token_program output_mint accepted in
      let (distinct, same) = new_programs_lem ixs in
      rw e (
        refl,
        token_account_at i account hi,
        fixed_at 0 _ counted (omega arith),
        fixed_at 1 _ counted (omega arith),
        fixed_at 2 _ counted (omega arith),
        fixed_at 3 _ counted (omega arith),
        mint_at counted,
        dex_account_at h j _ hop meta counted refl hh hj,
        distinct,
        same,
        program_at m _ program counted refl hm,
        integrator_at _ counted refl,
        length-listed counted,
      )
