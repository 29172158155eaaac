-- ===== src/Execution/Wrap.antt =====
-- execution/router.rs: the swaps of a route wrapped in one instruction of the router program. The derivation of
-- a program's address is a library's, a parameter here.
mod Tests
pub mod Laws
pub mod Hops
pub mod Accounts
pub mod Reading
use flow_trades_solana.Base.{
  ℕ, suc, ◌+◌, ◌%◌, ◌^◌, Bool, true, false, not, Option, none, some, List, [], ◌∷◌, ◌++◌, map, ◌==◌,
  if◌then◌else◌, length,
}
use flow_trades_solana.Base.Bytes.{Pubkey}
use flow_trades_solana.Base.Wire.{to_le_bytes, key_bytes}
use flow_trades_solana.Registry.{member}
use flow_trades_solana.Execution.{AccountMeta, writable, readonly, Instruction, Result, ok, err}

abbrev pub flow_router_program_id : Pubkey
flow_router_program_id = 0xd5163fb5b0b9044d837e419d0ff507949177e3194d93cd8f70d52efb5f2977e0

abbrev pub swap_disc : ℕ
swap_disc = 0

-- `b"config"` and `b"integrator"`.
abbrev pub config_seed : List ℕ
config_seed = 99 ∷ 111 ∷ 110 ∷ 102 ∷ 105 ∷ 103 ∷ []

abbrev pub integrator_seed : List ℕ
integrator_seed = 105 ∷ 110 ∷ 116 ∷ 101 ∷ 103 ∷ 114 ∷ 97 ∷ 116 ∷ 111 ∷ 114 ∷ []

pub record RouterConfig : Type 0 where
  pub program_id : Pubkey
  pub treasury_wallet : Pubkey
  pub referral_wallet : Option Pubkey
  pub fee_bps : ℕ

pub data RouterLayout : Type 0 where
  legacy transfer_checked : RouterLayout

pub layout : RouterConfig → RouterLayout
layout c = if c.program_id == flow_router_program_id then legacy else transfer_checked

-- `TradeError::Validation`, with what its message shows.
pub data Refusal : Type 0 where
  no_swap_instructions : Refusal
  expected_token_accounts : (num_hops got : ℕ) → Refusal

-- What the loop over the hops writes.
pub hop_bytes : List Instruction → List ℕ
hop_bytes [] = []
hop_bytes (ix ∷ ixs) =
    key_bytes ix.program_id
    ++ (to_le_bytes 4 (length ix.bytes % 2 ^ 32)
        ++ (ix.bytes ++ (length ix.accounts % 2 ^ 8 ∷ hop_bytes ixs)))

pub swap_data : List Instruction → (amount_in min_amount_out : ℕ) → List ℕ
swap_data ixs amount_in min_amount_out =
    swap_disc
    ∷ length ixs % 2 ^ 8
    ∷ (hop_bytes ixs ++ (to_le_bytes 8 amount_in ++ to_le_bytes 8 min_amount_out))

pub dex_accounts : List Instruction → List AccountMeta
dex_accounts [] = []
dex_accounts (ix ∷ ixs) = ix.accounts ++ dex_accounts ixs

-- The loop that pushes each program once.
pub new_programs : (seen_programs : List Pubkey) → List Instruction → List Pubkey
new_programs seen [] = []
new_programs seen (ix ∷ ixs) =
    let known = member ix.program_id seen in
    let rest = new_programs (if known then seen else seen ++ (ix.program_id ∷ [])) ixs in
    if known then rest else ix.program_id ∷ rest

-- The account that only `TransferChecked` has.
pub mint_account : RouterLayout → (output_mint : Pubkey) → List AccountMeta
mint_account legacy mint = []
mint_account transfer_checked mint = readonly mint false ∷ []

module _ (find_program_address : (seeds : List (List ℕ)) → (program_id : Pubkey) → Pubkey × ℕ) where
  pub config_pda : Pubkey → Pubkey
  config_pda program_id = (find_program_address (config_seed ∷ []) program_id).0

  pub integrator_account :
      RouterConfig → (referral_token_account : Option Pubkey) → List AccountMeta
  integrator_account c none = []
  integrator_account c (some account) = elim c.referral_wallet [
    | none ↦ []
    | some wallet ↦
        let pda = find_program_address (integrator_seed ∷ key_bytes wallet ∷ []) c.program_id in
        readonly (pda.0) false ∷ []
  ]

  pub swap_accounts :
      RouterConfig
      → (payer : Pubkey) → (token_accounts : List Pubkey) → (protocol_fee_token_account : Pubkey)
      → (referral_token_account : Option Pubkey) → (dex_swap_ixs : List Instruction)
      → (token_program_id output_mint : Pubkey) → List AccountMeta
  swap_accounts c payer token_accounts fee referral ixs token_program output_mint =
      let referral_account : Pubkey = elim referral [
        | none ↦ c.program_id
        | some account ↦ account
      ] in
      readonly payer true
      ∷ (map (λ k. writable k false) token_accounts
          ++ (readonly (config_pda c.program_id) false
              ∷ writable fee false
              ∷ writable referral_account false
              ∷ readonly token_program false
              ∷ (mint_account (layout c) output_mint
                  ++ (dex_accounts ixs
                      ++ (map (λ k. readonly k false) (new_programs [] ixs)
                          ++ integrator_account c referral)))))

  pub wrap_swap :
      RouterConfig
      → (payer : Pubkey) → (token_accounts : List Pubkey) → (protocol_fee_token_account : Pubkey)
      → (referral_token_account : Option Pubkey) → (dex_swap_ixs : List Instruction)
      → (amount_in min_amount_out : ℕ) → (token_program_id output_mint : Pubkey)
      → Result Refusal Instruction
  wrap_swap c payer token_accounts fee referral ixs amount_in min_amount_out token_program
        output_mint =
      let num_hops = length ixs in
      let wrapped : Instruction = record {
        program_id = c.program_id;
        accounts = swap_accounts c payer token_accounts fee referral ixs token_program output_mint;
        bytes = swap_data ixs amount_in min_amount_out;
      } in
      if num_hops == 0
      then err no_swap_instructions
      else if not (length token_accounts == num_hops + 1)
      then err (expected_token_accounts num_hops (length token_accounts))
      else ok wrapped

module _ (associated_token_address : (wallet mint token_program : Pubkey) → Pubkey) where
  pub fee_account_for_mint : RouterConfig → (mint token_program : Pubkey) → Pubkey
  fee_account_for_mint c mint token_program =
      associated_token_address c.treasury_wallet mint token_program

  pub referral_account_for_mint : RouterConfig → (mint token_program : Pubkey) → Option Pubkey
  referral_account_for_mint c mint token_program = elim c.referral_wallet [
    | none ↦ none
    | some w ↦ some (associated_token_address w mint token_program)
  ]
