-- ===== src/Execution/Wrap/Hops.antt =====
-- execution/router.rs: theorems on what the hops add to the accounts.
use flow_trades_solana.Base.{
  ℕ, zero, suc, ◌+◌, ◌≡◌, refl, ap, ◌∙◌, true, false, not, ◌&&◌, Bool, if◌then◌else◌, Option, none,
  some, List, [], ◌∷◌, ◌++◌, map, length, get_elem?, arith, inl, inr, Bool-cases,
}
use flow_trades_solana.Base.Bytes.{Pubkey, take}
use flow_trades_solana.Base.Bytes.Laws.{length-append}
use flow_trades_solana.Base.Positions.{get_elem?-append_left, get_elem?-append_right}
use flow_trades_solana.Registry.{member}
use flow_trades_solana.Registry.Laws.{member_snoc, Distinct}
use flow_trades_solana.Execution.{AccountMeta, readonly, Instruction}
use flow_trades_solana.Execution.Wrap.{
  legacy, transfer_checked, dex_accounts, new_programs, mint_account,
}

abbrev pub programs : List Instruction → List Pubkey
programs = map λ ix. ix.program_id

member-new_programs :
    (x : Pubkey) (seen : List Pubkey) (ixs : List Instruction)
    → member x (new_programs seen ixs) ≡ (member x (programs ixs) && not (member x seen))
unfolding new_programs member
member-new_programs x seen [] = refl
member-new_programs x seen (ix ∷ ixs) = elim (Bool-cases (member ix.program_id seen)) [
  | inl e ↦ rw e (grind (arith, member-new_programs x seen ixs, e))
  | inr e ↦ rw e (
      grind (
        arith,
        member-new_programs x (seen ++ (ix.program_id ∷ [])) ixs,
        member_snoc x ix.program_id seen,
        e,
      ))
]

new_programs-Distinct :
    (seen : List Pubkey) (ixs : List Instruction) → Distinct (new_programs seen ixs)
unfolding new_programs member
new_programs-Distinct seen [] = tt
new_programs-Distinct seen (ix ∷ ixs) = elim (Bool-cases (member ix.program_id seen)) [
  | inl e ↦ rw e (new_programs-Distinct seen ixs)
  | inr e ↦
      let next = seen ++ (ix.program_id ∷ []) in
      rw e (
        ground (
          arith,
          member-new_programs ix.program_id next ixs,
          member_snoc ix.program_id ix.program_id seen,
        ),
        new_programs-Distinct next ixs,
      )
]

-- Each program that a hop calls is listed once among the programs that `wrap_swap` appends, and no other is.
pub new_programs_lem :
    (ixs : List Instruction)
    → Distinct (new_programs [] ixs)
      × ((x : Pubkey) → member x (new_programs [] ixs) ≡ member x (programs ixs))
unfolding member
new_programs_lem ixs =
    (new_programs-Distinct [] ixs, λ x. ground (arith, member-new_programs x [] ixs))

-- The accounts of some hops, counted.
abbrev pub accounts_of : List Instruction → ℕ
accounts_of [] = 0
accounts_of (ix ∷ ixs) = length ix.accounts + accounts_of ixs

abbrev pub length_of {ℓ} : {A : Type ℓ} → Option A → ℕ
length_of none = 0
length_of (some _) = 1

-- The deployed router's list has no output mint.
abbrev pub MintAt : (deployed : Bool) → List AccountMeta → ℕ → Pubkey → Type 0
MintAt true accounts i mint = Unit
MintAt false accounts i mint = get_elem? accounts i ≡ some (readonly mint false)

pub mint_first :
    (deployed : Bool) (accounts rest : List AccountMeta) (i : ℕ) (mint : Pubkey)
    → get_elem? accounts i
      ≡ get_elem? (mint_account (if deployed then legacy else transfer_checked) mint ++ rest) 0
    → MintAt deployed accounts i mint
unfolding mint_account
mint_first true accounts rest i mint h = tt
mint_first false accounts rest i mint h = h

pub length-dex_accounts : (ixs : List Instruction) → length (dex_accounts ixs) ≡ accounts_of ixs
unfolding dex_accounts
length-dex_accounts [] = refl
length-dex_accounts (ix ∷ ixs) = simp length-append (omega (arith, length-dex_accounts ixs))

pub dex_account_of :
    (ixs : List Instruction) (h j : ℕ) (hop : Instruction) (meta : AccountMeta)
    → get_elem? ixs h ≡ some hop
    → get_elem? hop.accounts j ≡ some meta
    → get_elem? (dex_accounts ixs) (accounts_of (take h ixs) + j) ≡ some meta
unfolding dex_accounts
dex_account_of [] h j hop meta e g = ground (arith, e)
dex_account_of (ix ∷ ixs) zero j hop meta e g =
    let same : ix ≡ hop = ground (arith, e) in
    ap (get_elem? (ix.accounts ++ dex_accounts ixs)) (omega arith)
    ∙ get_elem?-append_left ix.accounts (dex_accounts ixs) j meta (rw same g)
dex_account_of (ix ∷ ixs) (suc h) j hop meta e g =
    get_elem?-append_right ix.accounts (dex_accounts ixs) (accounts_of (take h ixs) + j) _
      (omega arith)
    ∙ dex_account_of ixs h j hop meta e g
