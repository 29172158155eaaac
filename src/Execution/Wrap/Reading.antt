-- ===== src/Execution/Wrap/Reading.antt =====
-- execution/router.rs: the data of the wrapped instruction, as the router program reads them.
use mathlib.Core.List.{append_assoc, append-nil}
use flow_trades_solana.Base.{
  ℕ, zero, suc, ◌%◌, ◌^◌, ◌<◌, ◌≡◌, refl, sym, Option, none, some, List, [], ◌∷◌, ◌++◌, map, ◌>>=◌,
  length, All, arith,
}
use flow_trades_solana.Base.Bytes.{Pubkey}
use flow_trades_solana.Base.Wire.{to_le_bytes, read_bytes, read_byte, read_number, read_key}
use flow_trades_solana.Base.Wire.Laws.{read_bytes-append, read_number-append, read_key-append}
use flow_trades_solana.Execution.{Instruction}
use flow_trades_solana.Execution.Wrap.{hop_bytes, swap_data}

-- What the router program is told of a hop.
pub record Hop : Type 0 where
  pub program : Pubkey
  pub payload : List ℕ
  pub account_count : ℕ

abbrev pub hop_of : Instruction → Hop
hop_of ix = record {
  program = ix.program_id;
  payload = ix.bytes;
  account_count = length ix.accounts;
}

-- A reader of the data that `wrap_swap`'s comment describes.
abbrev read_hop : List ℕ → Option (Hop × List ℕ)
read_hop bytes = do
  (program, more) ← read_key bytes
  (size, more) ← read_number 4 more
  (payload, more) ← read_bytes size more
  (count, more) ← read_byte more
  some (record { program = program; payload = payload; account_count = count }, more)

pub read_hops : ℕ → List ℕ → Option (List Hop × List ℕ)
read_hops zero bytes = some ([], bytes)
read_hops (suc n) bytes = do
  (hop, more) ← read_hop bytes
  (hops, more) ← read_hops n more
  some (hop ∷ hops, more)

abbrev read_amounts : List Hop → List ℕ → Option (List Hop × ℕ × ℕ)
read_amounts hops bytes = do
  (amount_in, more) ← read_number 8 bytes
  (min_out, more) ← read_number 8 more
  elim more [ [] ↦ some (hops, amount_in, min_out) | _ ∷ _ ↦ none ]

pub read_swap : List ℕ → Option (List Hop × ℕ × ℕ)
read_swap (zero ∷ num_hops ∷ bytes) = do
  (hops, more) ← read_hops num_hops bytes
  read_amounts hops more
read_swap _ = none

abbrev pub Encodable : Instruction → Type 0
Encodable ix = (ix.program_id < 2 ^ 256) × (length ix.bytes < 2 ^ 32) × (length ix.accounts < 2 ^ 8)

read_hop-hop_bytes :
    (ix : Instruction) (ixs : List Instruction) (rest : List ℕ)
    → Encodable ix
    → read_hop (hop_bytes (ix ∷ ixs) ++ rest) ≡ some (hop_of ix, hop_bytes ixs ++ rest)
unfolding hop_bytes
read_hop-hop_bytes ix ixs rest (hk, hb, ha) =
    let size : length ix.bytes % 2 ^ 32 ≡ length ix.bytes = omega (arith, hb) in
    let count : length ix.accounts % 2 ^ 8 ≡ length ix.accounts = omega (arith, ha) in
    rw size (
      rw count (
        simp (
          append_assoc,
          read_key-append _ _ hk,
          read_number-append 4 _ _ hb,
          read_bytes-append _ ix.bytes _ refl,
        )))

read_hops-hop_bytes :
    (ixs : List Instruction) (rest : List ℕ)
    → All Encodable ixs
    → read_hops (length ixs) (hop_bytes ixs ++ rest) ≡ some (map hop_of ixs, rest)
unfolding read_hops hop_bytes
read_hops-hop_bytes [] rest h = refl
read_hops-hop_bytes (ix ∷ ixs) rest (h, hs) =
    rw (read_hop-hop_bytes ix ixs rest h) (rw (read_hops-hop_bytes ixs rest hs) refl)

read_amounts-to_le_bytes :
    (hops : List Hop) (a b : ℕ)
    → a < 2 ^ 64
    → b < 2 ^ 64
    → read_amounts hops (to_le_bytes 8 a ++ to_le_bytes 8 b) ≡ some (hops, a, b)
read_amounts-to_le_bytes hops a b ha hb =
    rw (read_number-append 8 a _ ha)
      (rw (sym (append-nil (to_le_bytes 8 b))) (rw (read_number-append 8 b [] hb) refl))

pub read_swap-swap_data :
    (ixs : List Instruction) (amount_in min_amount_out : ℕ)
    → All Encodable ixs
    → length ixs < 2 ^ 8
    → amount_in < 2 ^ 64
    → min_amount_out < 2 ^ 64
    → read_swap (swap_data ixs amount_in min_amount_out)
      ≡ some (map hop_of ixs, amount_in, min_amount_out)
unfolding read_swap swap_data
read_swap-swap_data ixs a b h few ha hb =
    let count : length ixs % 2 ^ 8 ≡ length ixs = omega (arith, few) in
    rw count (rw (read_hops-hop_bytes ixs _ h) (read_amounts-to_le_bytes _ a b ha hb))
