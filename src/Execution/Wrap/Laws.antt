-- ===== src/Execution/Wrap/Laws.antt =====
-- execution/router.rs: theorems on what is refused, and on the data of the wrapped instruction.
use flow_trades_solana.Base.{
  ℕ, ◌+◌, ◌<◌, ◌≡◌, ◌≢◌, ◌↔◌, Option, some, List, map, length, All, ◌^◌, arith,
}
use flow_trades_solana.Base.Bytes.{Pubkey}
use flow_trades_solana.Execution.{AccountMeta, Instruction, Result, ok, err}
use flow_trades_solana.Execution.Wrap.{
  RouterConfig, swap_data, swap_accounts, wrap_swap, Refusal, no_swap_instructions,
  expected_token_accounts,
}
use flow_trades_solana.Execution.Wrap.Reading.{Encodable, hop_of, read_swap, read_swap-swap_data}

module _ (find_program_address : (seeds : List (List ℕ)) → (program_id : Pubkey) → Pubkey × ℕ)
    (c : RouterConfig) (payer : Pubkey) (token_accounts : List Pubkey) (fee : Pubkey)
    (referral : Option Pubkey) (ixs : List Instruction) (amount_in min_amount_out : ℕ)
    (token_program output_mint : Pubkey) where
  abbrev outcome : Result Refusal Instruction
  outcome =
      wrap_swap find_program_address c payer token_accounts fee referral ixs amount_in
        min_amount_out token_program output_mint

  abbrev listed : List AccountMeta
  listed =
      swap_accounts find_program_address c payer token_accounts fee referral ixs token_program
        output_mint

  abbrev wrapped : Instruction
  wrapped = record {
    program_id = c.program_id;
    accounts = listed;
    bytes = swap_data ixs amount_in min_amount_out;
  }

  abbrev pub Reason : Refusal → Type 0
  Reason no_swap_instructions = length ixs ≡ 0
  Reason (expected_token_accounts n got) =
      (0 < length ixs)
      × (length token_accounts ≢ length ixs + 1)
      × (n ≡ length ixs)
      × (got ≡ length token_accounts)

  -- The call is refused for want of a hop exactly where there is none, and for its token accounts exactly where there is a
  -- hop and their number is not that of the hops and one, with both numbers; no other reason occurs.
  pub wrap_swap_refused : (e : Refusal) → (outcome ≡ err e) ↔ Reason e
  unfolding wrap_swap
  wrap_swap_refused no_swap_instructions = ground arith
  wrap_swap_refused (expected_token_accounts n got) = ground arith

  pub wrap_swap_accepted :
      {ix : Instruction}
      → outcome ≡ ok ix
      → (0 < length ixs) × (length token_accounts ≡ length ixs + 1) × (ix ≡ wrapped)
  unfolding wrap_swap
  wrap_swap_accepted h = ground (arith, h)

  -- The data of a wrapped instruction are read back, where there are fewer than 256 hops, each with a 32-byte program,
  -- fewer than 2^32 bytes of data and fewer than 256 accounts, and the amounts have 64 bits: each hop's program, data and
  -- account count in order, then the two amounts, and nothing is left over.
  pub read_swap-wrap_swap :
      {ix : Instruction}
      → outcome ≡ ok ix
      → All Encodable ixs
      → length ixs < 2 ^ 8
      → amount_in < 2 ^ 64
      → min_amount_out < 2 ^ 64
      → read_swap ix.bytes ≡ some (map hop_of ixs, amount_in, min_amount_out)
  read_swap-wrap_swap h sizes few ha hb =
      let (_, _, e) = wrap_swap_accepted h in
      rw e (read_swap-swap_data ixs amount_in min_amount_out sizes few ha hb)
