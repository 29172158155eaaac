-- ===== src/AccountMirror.antt =====
-- stream/account_mirror.rs: the mirror of account data: companion bytes, vault balances, and the pools of a
-- vault. A concurrent map is a function, and each operation runs alone. The counts and the listings of all
-- keys are not modelled.
mod Tests
pub mod Laws
use flow_trades_solana.Base.{
  ℕ, ◌+◌, Bool, true, false, Option, none, some, List, [], ◌∷◌, ltb, ◌==◌, if◌then◌else◌, ◌>>=◌,
  ◌>>◌, refuse_if, length,
}
use flow_trades_solana.Base.Bytes.{Pubkey, number_at}
use flow_trades_solana.Registry.{push_missing, addresses_of}

abbrev pub token_amount_offset : ℕ
token_amount_offset = 64

pub record AccountMirror : Type 0 where
  pub companion_bytes : Pubkey → Option (List ℕ)
  pub vault_balances : Pubkey → Option ℕ
  pub vault_to_pools : Pubkey → Option (List Pubkey)

pub new : AccountMirror
new = record { companion_bytes = λ _. none; vault_balances = λ _. none; vault_to_pools = λ _. none }

-- `DashMap::insert`.
abbrev put {ℓ} : {A : Type ℓ} → Pubkey → A → (Pubkey → Option A) → Pubkey → Option A
put key value map k = if k == key then some value else map k

abbrev is_some {ℓ} : {A : Type ℓ} → Option A → Bool
is_some none = false
is_some (some a) = true

pub insert_companion : Pubkey → List ℕ → AccountMirror → AccountMirror
insert_companion address bytes m = record m {
  companion_bytes = put address bytes m.companion_bytes;
}

pub get_companion : AccountMirror → Pubkey → Option (List ℕ)
get_companion m address = m.companion_bytes address

pub has_companion : AccountMirror → Pubkey → Bool
has_companion m address = is_some (m.companion_bytes address)

pub parse_token_balance : List ℕ → Option ℕ
parse_token_balance bytes =
    if ltb (length bytes) (token_amount_offset + 8)
    then none
    else number_at bytes token_amount_offset 8

pub update_vault_balance : Pubkey → (balance : ℕ) → AccountMirror → AccountMirror
update_vault_balance vault balance m = record m {
  vault_balances = put vault balance m.vault_balances;
}

-- What is returned, and the mirror after.
pub update_vault_from_bytes : Pubkey → List ℕ → AccountMirror → Option ℕ × AccountMirror
update_vault_from_bytes vault bytes m = elim (parse_token_balance bytes) [
  | none ↦ (none, m)
  | some balance ↦ (some balance, record m { vault_balances = put vault balance m.vault_balances })
]

pub get_vault_balance : AccountMirror → Pubkey → Option ℕ
get_vault_balance m vault = m.vault_balances vault

pub register_vault : Pubkey → (pool : Pubkey) → AccountMirror → AccountMirror
register_vault vault pool m = record m {
  vault_to_pools = put vault (push_missing pool (m.vault_to_pools vault)) m.vault_to_pools;
}

pub pools_for_vault : AccountMirror → Pubkey → List Pubkey
pools_for_vault m vault = addresses_of (m.vault_to_pools vault)

pub is_vault : AccountMirror → Pubkey → Bool
is_vault m address = is_some (m.vault_to_pools address)
