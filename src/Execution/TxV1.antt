-- ===== src/Execution/TxV1.antt =====
-- execution/tx_v1.rs: an unsigned transaction of format v1 as bytes. The compiler of the library's legacy message, with
-- its order of the addresses, is a parameter.
mod Tests
pub mod Reading
pub mod Laws
use flow_trades_solana.Base.{
  ℕ, zero, suc, ◌+◌, ◌*◌, ◌^◌, Bool, true, false, Option, none, some, List, [], ◌∷◌, ◌++◌, ltb, leb,
  ◌==◌, if◌then◌else◌, length,
}
use flow_trades_solana.Base.Bytes.{Pubkey}
use flow_trades_solana.Base.Wire.{to_le_bytes, key_bytes}
use flow_trades_solana.Execution.{Instruction, Result, ok, err}

abbrev pub v1_prefix : ℕ
v1_prefix = 0x81

abbrev pub max_v1_tx_bytes : ℕ
max_v1_tx_bytes = 4_096

abbrev pub max_addresses : ℕ
max_addresses = 64

abbrev pub max_instructions : ℕ
max_instructions = 64

abbrev pub mask_priority_fee : ℕ
mask_priority_fee = 3

abbrev pub mask_compute_unit_limit : ℕ
mask_compute_unit_limit = 4

abbrev pub mask_loaded_accounts_data_size : ℕ
mask_loaded_accounts_data_size = 8

abbrev pub loaded_accounts_data_size : ℕ
loaded_accounts_data_size = 64 * 1_024 * 1_024

abbrev pub compute_budget_program : Pubkey
compute_budget_program = 0x306466fe5211732ffecadba72c39be7bc8ce5bbc5f7126b2c439b3a40000000

pub record V1Budget : Type 0 where
  pub compute_unit_limit : ℕ
  pub priority_fee_lamports : ℕ

-- `solana_sdk::instruction::CompiledInstruction` and `solana_sdk::message::Message`, in what is read of them; `bytes` is
-- the field `data`.
pub record CompiledInstruction : Type 0 where
  pub program_id_index : ℕ
  pub accounts : List ℕ
  pub bytes : List ℕ

pub record Message : Type 0 where
  pub num_required_signatures : ℕ
  pub num_readonly_signed_accounts : ℕ
  pub num_readonly_unsigned_accounts : ℕ
  pub account_keys : List Pubkey
  pub instructions : List CompiledInstruction

-- `TradeError::Validation`, with what its message shows.
pub data Refusal : Type 0 where
  no_instructions no_compute_units data_over_65535 over_255_accounts : Refusal
  too_many_instructions too_many_addresses too_many_bytes : ℕ → Refusal

-- The filter that drops the compute-budget instructions.
pub without_budget : List Instruction → List Instruction
without_budget [] = []
without_budget (ix ∷ ixs) =
    let rest = without_budget ixs in
    if ix.program_id == compute_budget_program then rest else ix ∷ rest

-- The masks have no bit in common, so `|` is a sum.
pub config_mask : V1Budget → ℕ
config_mask b =
    let base = mask_compute_unit_limit + mask_loaded_accounts_data_size in
    if ltb 0 b.priority_fee_lamports then base + mask_priority_fee else base

pub keys_bytes : List Pubkey → List ℕ
keys_bytes [] = []
keys_bytes (k ∷ ks) = key_bytes k ++ keys_bytes ks

pub fee_bytes : V1Budget → List ℕ
fee_bytes b = if ltb 0 b.priority_fee_lamports then to_le_bytes 8 b.priority_fee_lamports else []

-- The first loop over the instructions, which is left at the first one that does not fit.
pub headers : List CompiledInstruction → Result Refusal (List ℕ)
headers [] = ok []
headers (ci ∷ cis) =
    let header = ci.program_id_index ∷ length ci.accounts ∷ to_le_bytes 2 (length ci.bytes) in
    let more : Result Refusal (List ℕ) = elim (headers cis) [
      | err e ↦ err e
      | ok rest ↦ ok (header ++ rest)
    ] in
    if leb (2 ^ 16) (length ci.bytes)
    then err data_over_65535
    else if leb (2 ^ 8) (length ci.accounts)
    then err over_255_accounts
    else more

-- The second loop.
pub payloads : List CompiledInstruction → List ℕ
payloads [] = []
payloads (ci ∷ cis) = ci.accounts ++ (ci.bytes ++ payloads cis)

pub zeros : ℕ → List ℕ
zeros zero = []
zeros (suc n) = 0 ∷ zeros n

-- The bytes before the instructions' headers.
pub prelude_bytes :
    Message → (recent_blockhash : Pubkey) → V1Budget → (num_instructions : ℕ) → List ℕ
prelude_bytes msg recent_blockhash budget num_instructions =
    v1_prefix
    ∷ msg.num_required_signatures
    ∷ msg.num_readonly_signed_accounts
    ∷ msg.num_readonly_unsigned_accounts
    ∷ (to_le_bytes 4 (config_mask budget)
        ++ (key_bytes recent_blockhash
            ++ (num_instructions
                ∷ length msg.account_keys
                ∷ (keys_bytes msg.account_keys
                    ++ (fee_bytes budget
                        ++ (to_le_bytes 4 budget.compute_unit_limit
                            ++ to_le_bytes 4 loaded_accounts_data_size))))))

-- What is left once the message is compiled and its addresses are counted.
pub encode_message :
    Message
    → (recent_blockhash : Pubkey) → V1Budget
    → (num_instructions : ℕ) → Result Refusal (List ℕ)
encode_message msg recent_blockhash budget num_instructions = elim (headers msg.instructions) [
  | err e ↦ err e
  | ok hs ↦
      let b =
        prelude_bytes msg recent_blockhash budget num_instructions
        ++ (hs ++ (payloads msg.instructions ++ zeros (64 * msg.num_required_signatures))) in
      if ltb max_v1_tx_bytes (length b) then err (too_many_bytes (length b)) else ok b
]

module _ (message_new : List Instruction → (payer : Pubkey) → Message) where
  pub encode_unsigned_v1 :
      List Instruction → (payer recent_blockhash : Pubkey) → V1Budget → Result Refusal (List ℕ)
  encode_unsigned_v1 instructions payer recent_blockhash budget =
      let ixs = without_budget instructions in
      let n = length ixs in
      let msg = message_new ixs payer in
      let addresses = length msg.account_keys in
      if n == 0
      then err no_instructions
      else if ltb max_instructions n
      then err (too_many_instructions n)
      else if budget.compute_unit_limit == 0
      then err no_compute_units
      else if ltb max_addresses addresses
      then err (too_many_addresses addresses)
      else encode_message msg recent_blockhash budget n
