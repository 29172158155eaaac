-- ===== src/Execution/TxV1/Tests.antt =====
-- execution/tx_v1.rs: one instruction beside the compute budget's, compiled to the payer and its program.
use flow_trades_solana.Base.{ℕ, ◌≤◌, ◌≡◌, refl, some, List, [], ◌∷◌, map, length, arith}
use flow_trades_solana.Base.Bytes.{Pubkey}
use flow_trades_solana.Execution.{Instruction, ok, err}
use flow_trades_solana.Execution.TxV1.{
  compute_budget_program, V1Budget, CompiledInstruction, Message, no_instructions,
  encode_unsigned_v1, without_budget,
}
use flow_trades_solana.Execution.TxV1.Reading.{read_v1}
use flow_trades_solana.Execution.TxV1.Laws.{
  Within, size, encode_unsigned_v1_limits, encode_unsigned_v1_succeeds, read_v1-encode_unsigned_v1,
}

-- A compiler of messages for programs that are called without accounts.
abbrev compiled : Instruction → CompiledInstruction
compiled ix = record { program_id_index = 1; accounts = []; bytes = ix.bytes }

abbrev message_new : List Instruction → (payer : Pubkey) → Message
message_new ixs payer = record {
  num_required_signatures = 1;
  num_readonly_signed_accounts = 0;
  num_readonly_unsigned_accounts = 1;
  account_keys = payer ∷ 9 ∷ [];
  instructions = map compiled ixs;
}

abbrev instructions : List Instruction
instructions =
    record { program_id = compute_budget_program; accounts = []; bytes = 2 ∷ [] }
    ∷ record { program_id = 9; accounts = []; bytes = 7 ∷ 8 ∷ [] }
    ∷ []

abbrev budget : V1Budget
budget = record { compute_unit_limit = 400_000; priority_fee_lamports = 7_000 }

compiled_each :
    length (message_new (without_budget instructions) 5).instructions
    ≡ length (without_budget instructions)
unfolding without_budget
compiled_each = refl

refuses_nothing : encode_unsigned_v1 message_new [] 5 6 budget ≡ err no_instructions
unfolding encode_unsigned_v1 without_budget
refuses_nothing = refl

encode_unsigned_v1_succeeds_example :
    (bytes : List ℕ) × (encode_unsigned_v1 message_new instructions 5 6 budget ≡ ok bytes)
unfolding without_budget
encode_unsigned_v1_succeeds_example =
    encode_unsigned_v1_succeeds message_new instructions 5 6 budget compiled_each
      (omega arith, omega arith, omega arith, omega arith) (omega arith) (omega arith)

encoded : (bytes : List ℕ) × (encode_unsigned_v1 message_new instructions 5 6 budget ≡ ok bytes)
unfolding without_budget
encoded =
    encode_unsigned_v1_succeeds message_new instructions 5 6 budget compiled_each
      (omega arith, omega arith, omega arith, omega arith) (omega arith) (omega arith)

abbrev transaction : List ℕ
transaction = encoded.0

encode_unsigned_v1_limits_example :
    Within message_new instructions 5 6 budget compiled_each
    × (length transaction ≡ size (message_new (without_budget instructions) 5) budget)
    × (length transaction ≤ 4_096)
encode_unsigned_v1_limits_example =
    encode_unsigned_v1_limits message_new instructions 5 6 budget compiled_each (encoded.1)

read_v1-encode_unsigned_v1_example :
    read_v1 transaction
    ≡ some (record {
      message = message_new (without_budget instructions) 5;
      recent_blockhash = 6;
      budget = budget;
    })
unfolding without_budget
read_v1-encode_unsigned_v1_example =
    read_v1-encode_unsigned_v1 message_new instructions 5 6 budget compiled_each (encoded.1)
      (omega arith) (omega arith) (omega arith) (omega arith)
