-- ===== src/Execution/TxV1/Reading.antt =====
-- execution/tx_v1.rs: a reader of the format v1, and that it reads back what is encoded.
use mathlib.Core.List.{append_assoc}
use flow_trades_solana.Base.{
  ℕ, zero, suc, ◌*◌, ◌%◌, ◌^◌, ◌<◌, ◌≤◌, ◌≡◌, refl, sym, ap, not, Option, none, some, List, [], ◌∷◌,
  ◌++◌, map, ltb, ◌==◌, if◌then◌else◌, ◌>>=◌, ◌>>◌, refuse_if, length, All, arith, inl, inr,
  Bool-cases,
}
use flow_trades_solana.Base.Bytes.{Pubkey}
use flow_trades_solana.Base.Wire.{to_le_bytes, read_bytes, read_byte, read_number, read_key}
use flow_trades_solana.Base.Wire.Laws.{
  read_bytes-append, read_bytes_all, read_number-append, read_key-append,
}
use flow_trades_solana.Execution.{ok, Result-cases}
use flow_trades_solana.Execution.TxV1.{
  v1_prefix, max_v1_tx_bytes, loaded_accounts_data_size, V1Budget, CompiledInstruction, Message,
  config_mask, keys_bytes, fee_bytes, headers, payloads, zeros, prelude_bytes, encode_message,
}

-- What a transaction says.
pub record Decoded : Type 0 where
  pub message : Message
  pub recent_blockhash : Pubkey
  pub budget : V1Budget

abbrev read_header : List ℕ → Option ((ℕ × ℕ × ℕ) × List ℕ)
read_header bytes = do
  (program, more) ← read_byte bytes
  (accounts, more) ← read_byte more
  (size, more) ← read_number 2 more
  some ((program, accounts, size), more)

read_headers : ℕ → List ℕ → Option (List (ℕ × ℕ × ℕ) × List ℕ)
read_headers zero bytes = some ([], bytes)
read_headers (suc n) bytes = do
  (header, more) ← read_header bytes
  (rest, more) ← read_headers n more
  some (header ∷ rest, more)

read_payloads : List (ℕ × ℕ × ℕ) → List ℕ → Option (List CompiledInstruction × List ℕ)
read_payloads [] bytes = some ([], bytes)
read_payloads ((program, n, size) ∷ hs) bytes = do
  (accounts, more) ← read_bytes n bytes
  (payload, more) ← read_bytes size more
  (rest, more) ← read_payloads hs more
  some (record { program_id_index = program; accounts = accounts; bytes = payload } ∷ rest, more)

read_keys : ℕ → List ℕ → Option (List Pubkey × List ℕ)
read_keys zero bytes = some ([], bytes)
read_keys (suc n) bytes = do
  (key, more) ← read_key bytes
  (rest, more) ← read_keys n more
  some (key ∷ rest, more)

-- Both fee bits are set, or no fee is written.
read_fee : (mask : ℕ) → List ℕ → Option (ℕ × List ℕ)
read_fee mask bytes = if mask % 4 == 3 then read_number 8 bytes else some (0, bytes)

-- `none` on a version, a budget of loaded data or trailing bytes that the format does not have here.
pub read_v1 : List ℕ → Option Decoded
read_v1 bytes = do
  (prefix, more) ← read_byte bytes
  refuse_if (not (prefix == v1_prefix))
  (signatures, more) ← read_byte more
  (readonly_signed, more) ← read_byte more
  (readonly_unsigned, more) ← read_byte more
  (mask, more) ← read_number 4 more
  (recent_blockhash, more) ← read_key more
  (num_instructions, more) ← read_byte more
  (num_addresses, more) ← read_byte more
  (keys, more) ← read_keys num_addresses more
  (fee, more) ← read_fee mask more
  (limit, more) ← read_number 4 more
  (loaded, more) ← read_number 4 more
  refuse_if (not (loaded == loaded_accounts_data_size))
  (hs, more) ← read_headers num_instructions more
  (instructions, more) ← read_payloads hs more
  (slots, more) ← read_bytes (64 * signatures) more
  let decoded : Decoded = record {
    message = record {
      num_required_signatures = signatures;
      num_readonly_signed_accounts = readonly_signed;
      num_readonly_unsigned_accounts = readonly_unsigned;
      account_keys = keys;
      instructions = instructions;
    };
    recent_blockhash = recent_blockhash;
    budget = record { compute_unit_limit = limit; priority_fee_lamports = fee };
  }
  elim more [ [] ↦ some decoded | _ ∷ _ ↦ none ]

abbrev shape : CompiledInstruction → ℕ × ℕ × ℕ
shape ci = (ci.program_id_index, length ci.accounts, length ci.bytes)

abbrev pub header_of : CompiledInstruction → List ℕ
header_of ci = ci.program_id_index ∷ length ci.accounts ∷ to_le_bytes 2 (length ci.bytes)

-- What the headers are, if they are written.
pub headers_written :
    (ci : CompiledInstruction) (cis : List CompiledInstruction) {hs : List ℕ}
    → headers (ci ∷ cis) ≡ ok hs
    → (rest : List ℕ) × (headers cis ≡ ok rest)
      × (hs ≡ header_of ci ++ rest)
      × (length ci.bytes < 2 ^ 16)
unfolding headers
headers_written ci cis h = elim (Result-cases (headers cis)) [
  | inl (e, p) ↦ absurd (ground (arith, h, p))
  | inr (rest, p) ↦ (rest, p, ground (arith, h, p), ground (arith, h, p))
]

pub headers_nil : {hs : List ℕ} → headers [] ≡ ok hs → [] ≡ hs
unfolding headers
headers_nil h = ground (arith, h)

read_headers-headers :
    (cis : List CompiledInstruction) (hs rest : List ℕ)
    → headers cis ≡ ok hs
    → read_headers (length cis) (hs ++ rest) ≡ some (map shape cis, rest)
unfolding read_headers
read_headers-headers [] hs rest h = rw (sym (headers_nil h)) refl
read_headers-headers (ci ∷ cis) hs rest h =
    let (later, e, whole, small) = headers_written ci cis h in
    rw whole (
      simp (
        append_assoc,
        read_number-append 2 (length ci.bytes) _ small,
        read_headers-headers cis later rest e,
      ))

read_payloads-payloads :
    (cis : List CompiledInstruction) (rest : List ℕ)
    → read_payloads (map shape cis) (payloads cis ++ rest) ≡ some (cis, rest)
unfolding read_payloads payloads
read_payloads-payloads [] rest = refl
read_payloads-payloads (ci ∷ cis) rest = simp (
  append_assoc,
  read_bytes-append _ ci.accounts _ refl,
  read_bytes-append _ ci.bytes _ refl,
  read_payloads-payloads cis rest,
)

abbrev pub Address : Pubkey → Type 0
Address k = k < 2 ^ 256

read_keys-keys_bytes :
    (ks : List Pubkey) (rest : List ℕ)
    → All Address ks
    → read_keys (length ks) (keys_bytes ks ++ rest) ≡ some (ks, rest)
unfolding read_keys keys_bytes
read_keys-keys_bytes [] rest h = refl
read_keys-keys_bytes (k ∷ ks) rest (h, hs) =
    simp (append_assoc, read_key-append k _ h, read_keys-keys_bytes ks rest hs)

read_fee-fee_bytes :
    (b : V1Budget) (rest : List ℕ)
    → b.priority_fee_lamports < 2 ^ 64
    → read_fee (config_mask b) (fee_bytes b ++ rest) ≡ some (b.priority_fee_lamports, rest)
unfolding read_fee config_mask fee_bytes
read_fee-fee_bytes b rest h = elim (Bool-cases (ltb 0 b.priority_fee_lamports)) [
  | inl e ↦ rw e (read_number-append 8 _ rest h)
  | inr e ↦ rw e (ap (λ n. some (n, rest)) (ground (arith, e)))
]

pub length-zeros : (n : ℕ) → length (zeros n) ≡ n
unfolding zeros
length-zeros zero = refl
length-zeros (suc n) = omega (arith, length-zeros n)

mask-lt : (b : V1Budget) → config_mask b < 256 ^ 4
unfolding config_mask
mask-lt b = ground arith

abbrev pub written : Message → Pubkey → V1Budget → List ℕ → List ℕ
written msg h b hs =
    prelude_bytes msg h b (length msg.instructions)
    ++ (hs ++ (payloads msg.instructions ++ zeros (64 * msg.num_required_signatures)))

headers_read :
    (msg : Message) (recent_blockhash : Pubkey) (budget : V1Budget) (hs : List ℕ)
    → headers msg.instructions ≡ ok hs
    → All Address msg.account_keys
    → recent_blockhash < 2 ^ 256
    → budget.compute_unit_limit < 2 ^ 32
    → budget.priority_fee_lamports < 2 ^ 64
    → read_v1 (written msg recent_blockhash budget hs)
      ≡ some (record { message = msg; recent_blockhash = recent_blockhash; budget = budget })
unfolding read_v1 prelude_bytes
headers_read msg h b hs p keys hash limit fee =
    let slots = zeros (64 * msg.num_required_signatures) in
    simp (
      append_assoc,
      read_number-append 4 (config_mask b) _ (mask-lt b),
      read_key-append h _ hash,
      read_keys-keys_bytes msg.account_keys _ keys,
      read_fee-fee_bytes b _ fee,
      read_number-append 4 b.compute_unit_limit _ limit,
      read_number-append 4 loaded_accounts_data_size _ (omega arith),
      read_headers-headers msg.instructions hs _ p,
      read_payloads-payloads msg.instructions slots,
      read_bytes_all (64 * msg.num_required_signatures) slots (length-zeros _),
    )

-- What is encoded, if it is, and its size.
pub encode_message-written :
    (msg : Message) (recent_blockhash : Pubkey) (budget : V1Budget) {bytes : List ℕ}
    → encode_message msg recent_blockhash budget (length msg.instructions) ≡ ok bytes
    → (hs : List ℕ) × (headers msg.instructions ≡ ok hs)
      × (bytes ≡ written msg recent_blockhash budget hs)
      × (length bytes ≤ max_v1_tx_bytes)
unfolding encode_message
encode_message-written msg h b e = elim (Result-cases (headers msg.instructions)) [
  | inl (r, p) ↦ absurd (ground (arith, e, p))
  | inr (hs, p) ↦ (hs, p, ground (arith, e, p), ground (arith, e, p))
]

-- A message that is encoded is read back with its blockhash and its budget.
pub read_v1-encode_message :
    (msg : Message) (recent_blockhash : Pubkey) (budget : V1Budget) {bytes : List ℕ}
    → encode_message msg recent_blockhash budget (length msg.instructions) ≡ ok bytes
    → All Address msg.account_keys
    → recent_blockhash < 2 ^ 256
    → budget.compute_unit_limit < 2 ^ 32
    → budget.priority_fee_lamports < 2 ^ 64
    → read_v1 bytes
      ≡ some (record { message = msg; recent_blockhash = recent_blockhash; budget = budget })
read_v1-encode_message msg h b e keys hash limit fee =
    let (hs, p, whole, _) = encode_message-written msg h b e in
    rw whole (headers_read msg h b hs p keys hash limit fee)
