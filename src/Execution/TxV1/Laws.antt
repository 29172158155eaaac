-- ===== src/Execution/TxV1/Laws.antt =====
-- execution/tx_v1.rs: theorems on the encoder: what it accepts, the size of what it writes, and that it is read back.
use flow_trades_solana.Base.{
  ℕ, ◌+◌, ◌*◌, ◌^◌, ◌<◌, ◌≤◌, ◌≡◌, some, refl, sym, ap, ◌∙◌, List, [], ◌∷◌, ◌++◌, ltb,
  if◌then◌else◌, length, All, arith, inl, inr, Bool-cases,
}
use flow_trades_solana.Base.Bytes.{Pubkey}
use flow_trades_solana.Base.Bytes.Laws.{length-append}
use flow_trades_solana.Base.Wire.Laws.{length-to_le_bytes, length-key_bytes}
use flow_trades_solana.Execution.{Instruction, Result, ok}
use flow_trades_solana.Execution.TxV1.{
  max_v1_tx_bytes, max_addresses, max_instructions, V1Budget, CompiledInstruction, Message, Refusal,
  keys_bytes, fee_bytes, headers, payloads, prelude_bytes, encode_message, without_budget,
  encode_unsigned_v1,
}
use flow_trades_solana.Execution.TxV1.Reading.{
  Address, header_of, read_v1, written, headers_written, headers_nil, encode_message-written,
  read_v1-encode_message, length-zeros,
}

abbrev pub Fits : CompiledInstruction → Type 0
Fits ci = (length ci.accounts < 2 ^ 8) × (length ci.bytes < 2 ^ 16)

abbrev pub payload_size : List CompiledInstruction → ℕ
payload_size [] = 0
payload_size (ci ∷ cis) = length ci.accounts + length ci.bytes + payload_size cis

abbrev pub fee_size : V1Budget → ℕ
fee_size b = if ltb 0 b.priority_fee_lamports then 8 else 0

-- The bytes of a transaction, counted.
abbrev pub size : Message → V1Budget → ℕ
size msg b =
    50
    + 32 * length msg.account_keys
    + fee_size b
    + 4 * length msg.instructions
    + payload_size msg.instructions
    + 64 * msg.num_required_signatures

headers_fit :
    (cis : List CompiledInstruction) → All Fits cis → (hs : List ℕ) × (headers cis ≡ ok hs)
unfolding headers
headers_fit [] h = ([], refl)
headers_fit (ci ∷ cis) (h, hs) =
    let (rest, e) = headers_fit cis hs in (header_of ci ++ rest, rw e (ground (arith, h)))

length-headers :
    (cis : List CompiledInstruction) (hs : List ℕ)
    → headers cis ≡ ok hs
    → length hs ≡ 4 * length cis
length-headers [] hs h = rw (sym (headers_nil h)) refl
length-headers (ci ∷ cis) hs h =
    let (rest, e, whole, _) = headers_written ci cis h in
    rw whole (simp (length-append, length-to_le_bytes) (omega (arith, length-headers cis rest e)))

length-payloads : (cis : List CompiledInstruction) → length (payloads cis) ≡ payload_size cis
unfolding payloads
length-payloads [] = refl
length-payloads (ci ∷ cis) = simp length-append (omega (arith, length-payloads cis))

length-keys_bytes : (ks : List Pubkey) → length (keys_bytes ks) ≡ 32 * length ks
unfolding keys_bytes
length-keys_bytes [] = refl
length-keys_bytes (k ∷ ks) =
    simp (length-append, length-key_bytes) (omega (arith, length-keys_bytes ks))

length-fee_bytes : (b : V1Budget) → length (fee_bytes b) ≡ fee_size b
unfolding fee_bytes
length-fee_bytes b = elim (Bool-cases (ltb 0 b.priority_fee_lamports)) [
  | inl e ↦ rw e (length-to_le_bytes 8 b.priority_fee_lamports)
  | inr e ↦ rw e refl
]

length-written :
    (msg : Message) (h : Pubkey) (b : V1Budget) (hs : List ℕ)
    → headers msg.instructions ≡ ok hs
    → length (written msg h b hs) ≡ size msg b
unfolding prelude_bytes
length-written msg h b hs e =
    simp
      (
        length-append,
        length-to_le_bytes,
        length-key_bytes,
        length-keys_bytes,
        length-fee_bytes,
        length-payloads,
        length-zeros,
        length-headers msg.instructions hs e,
      )
      (omega arith)

encode_message-Fits :
    (msg : Message) (h : Pubkey) (b : V1Budget)
    → All Fits msg.instructions
    → size msg b ≤ max_v1_tx_bytes
    → (bytes : List ℕ) × (encode_message msg h b (length msg.instructions) ≡ ok bytes)
unfolding encode_message
encode_message-Fits msg h b fits small =
    let (hs, e) = headers_fit msg.instructions fits in
    let counted = length-written msg h b hs e in
    (written msg h b hs, ground (arith, e, counted, small))

module _ (message_new : List Instruction → (payer : Pubkey) → Message)
    (instructions : List Instruction) (payer recent_blockhash : Pubkey) (budget : V1Budget)
    (compiled_each : length (message_new (without_budget instructions) payer).instructions
      ≡ length (without_budget instructions)) where
  abbrev sent : List Instruction
  sent = without_budget instructions

  abbrev message : Message
  message = message_new sent payer

  abbrev outcome : Result Refusal (List ℕ)
  outcome = encode_unsigned_v1 message_new instructions payer recent_blockhash budget

  abbrev pub Within : Type 0
  Within =
      (0 < length sent)
      × (length sent ≤ max_instructions)
      × (0 < budget.compute_unit_limit)
      × (length message.account_keys ≤ max_addresses)

  reached :
      {bytes : List ℕ}
      → outcome ≡ ok bytes
      → Within
        × (encode_message message recent_blockhash budget (length message.instructions) ≡ ok bytes)
  unfolding encode_unsigned_v1
  reached h = rw compiled_each (ground (arith, h))

  -- The compiler of messages gives one compiled instruction for each. Then what is encoded has from 1 to 64 instructions
  -- beside the compute budget's, a compute limit that is not zero, at most 64 addresses, and exactly the counted bytes, which
  -- are at most 4,096.
  pub encode_unsigned_v1_limits :
      {bytes : List ℕ}
      → outcome ≡ ok bytes
      → Within × (length bytes ≡ size message budget) × (length bytes ≤ max_v1_tx_bytes)
  encode_unsigned_v1_limits h =
      let (within, e) = reached h in
      let (hs, p, whole, small) = encode_message-written message recent_blockhash budget e in
      (within, ap length whole ∙ length-written message recent_blockhash budget hs p, small)

  -- Where the compiler of messages gives one compiled instruction for each, an encoding within the limits succeeds: from 1 to 64
  -- instructions beside the compute budget's, a compute limit that is not zero, at most 64 addresses, for each compiled
  -- instruction at most 255 accounts and 65,535 bytes of data, and at most 4,096 counted bytes in all.
  pub encode_unsigned_v1_succeeds :
      Within
      → All Fits message.instructions
      → size message budget ≤ max_v1_tx_bytes
      → (bytes : List ℕ) × (outcome ≡ ok bytes)
  unfolding encode_unsigned_v1
  encode_unsigned_v1_succeeds within fits small =
      let (bytes, e) = encode_message-Fits message recent_blockhash budget fits small in
      let encoded = rw compiled_each at e in (bytes, ground (arith, encoded, within))

  -- Where the compiler of messages gives one compiled instruction for each, and its addresses and the blockhash have 32 bytes,
  -- the compute limit 32 bits and the fee 64, what is encoded is read back: the message compiled from the instructions without
  -- the compute budget's, the blockhash, the compute limit and the priority fee, and no bytes are left over.
  pub read_v1-encode_unsigned_v1 :
      {bytes : List ℕ}
      → outcome ≡ ok bytes
      → All Address message.account_keys
      → recent_blockhash < 2 ^ 256
      → budget.compute_unit_limit < 2 ^ 32
      → budget.priority_fee_lamports < 2 ^ 64
      → read_v1 bytes
        ≡ some (record { message = message; recent_blockhash = recent_blockhash; budget = budget })
  read_v1-encode_unsigned_v1 h keys hash limit fee =
      read_v1-encode_message message recent_blockhash budget ((reached h).1) keys hash limit fee
