-- ===== src/Execution.antt =====
-- execution/: what the builders of instructions and transactions share, which stands in src/error.rs and in
-- the Solana library.
pub mod Wrap
pub mod TxV1
use flow_trades_solana.Base.{Bool, true, false, List, ℕ, ◌≡◌, refl, ◌⊎◌, inl, inr}
use flow_trades_solana.Base.Bytes.{Pubkey}

-- `solana_sdk::instruction::AccountMeta`, with `new` and `new_readonly`.
pub record AccountMeta : Type 0 where
  pub pubkey : Pubkey
  pub is_signer : Bool
  pub is_writable : Bool

abbrev pub writable : Pubkey → (is_signer : Bool) → AccountMeta
writable k s = record { pubkey = k; is_signer = s; is_writable = true }

abbrev pub readonly : Pubkey → (is_signer : Bool) → AccountMeta
readonly k s = record { pubkey = k; is_signer = s; is_writable = false }

-- `solana_sdk::instruction::Instruction`; `bytes` is the field `data`.
pub record Instruction : Type 0 where
  pub program_id : Pubkey
  pub accounts : List AccountMeta
  pub bytes : List ℕ

-- `TradeResult`, with the reasons of a `TradeError::Validation` as the constructors of `E`.
pub data Result {ℓ κ} (E : Type ℓ) (A : Type κ) : Type (ℓ ⊔ κ) where
  ok : A → Result E A
  err : E → Result E A

pub Result-cases {ℓ κ} :
    {E : Type ℓ} {A : Type κ} (r : Result E A) → ((e : E) × (r ≡ err e)) ⊎ ((a : A) × (r ≡ ok a))
Result-cases (ok a) = inr (a, refl)
Result-cases (err e) = inl (e, refl)
