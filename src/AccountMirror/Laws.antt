-- ===== src/AccountMirror/Laws.antt =====
-- stream/account_mirror.rs: theorems on the mirror.
use flow_trades_solana.Base.{
  ℕ, ◌<◌, ◌^◌, ◌≡◌, refl, ◌||◌, ◌&&◌, some, List, ◌++◌, ◌==◌, if◌then◌else◌, length, arith,
}
use flow_trades_solana.Base.Bytes.{Pubkey, number_at}
use flow_trades_solana.Base.Bytes.Laws.{to_le, number_at_lem, length-append}
use flow_trades_solana.Registry.{member, addresses_of}
use flow_trades_solana.Registry.Laws.{member-push_missing}
use flow_trades_solana.AccountMirror.{
  AccountMirror, token_amount_offset, parse_token_balance, update_vault_from_bytes,
  get_vault_balance, register_vault, pools_for_vault, update_vault_balance, is_vault,
}

-- The pools of every vault after a registration: those before, and the one registered for its vault.
pub register_vault-pools_for_vault :
    (m : AccountMirror) (vault pool w x : Pubkey)
    → member x (pools_for_vault (register_vault vault pool m) w)
      ≡ ((w == vault && x == pool) || member x (pools_for_vault m w))
unfolding pools_for_vault register_vault addresses_of
register_vault-pools_for_vault m v p w x =
    ground (arith, member-push_missing x p (m.vault_to_pools v))

parse_split :
    (before xs after : List ℕ) (n : ℕ)
    → length before ≡ token_amount_offset
    → length xs ≡ 8
    → number_at (before ++ (xs ++ after)) token_amount_offset 8 ≡ some n
    → parse_token_balance (before ++ (xs ++ after)) ≡ some n
unfolding parse_token_balance
parse_split before xs after n h hx e =
    ground (arith, length-append before (xs ++ after), length-append xs after)

updated :
    (m : AccountMirror) (vault other : Pubkey) (bytes : List ℕ) (n : ℕ)
    → parse_token_balance bytes ≡ some n
    → let r = update_vault_from_bytes vault bytes m in
      (r.0 ≡ some n)
      × (get_vault_balance (r.1) other
          ≡ (if other == vault then some n else get_vault_balance m other))
unfolding update_vault_from_bytes get_vault_balance
updated m v o bytes n e = ground (arith, e)

-- A token account's bytes with an amount of 64 bits at its offset set that vault's balance to the amount, and
-- change no other vault's balance.
pub update_vault_from_bytes-get_vault_balance :
    (m : AccountMirror) (vault other : Pubkey) (before after : List ℕ) (amount : ℕ)
    → length before ≡ token_amount_offset
    → amount < 2 ^ 64
    → let r = update_vault_from_bytes vault (before ++ (to_le 8 amount ++ after)) m in
      (r.0 ≡ some amount)
      × (get_vault_balance (r.1) other
          ≡ (if other == vault then some amount else get_vault_balance m other))
update_vault_from_bytes-get_vault_balance m v o before after n h small =
    updated m v o (before ++ (to_le 8 n ++ after)) n (
      parse_split before (to_le 8 n) after n h refl
        (number_at_lem token_amount_offset before after n h small))

pub get_vault_balance-update :
    (a : Pubkey) (n : ℕ) (m : AccountMirror) (x : Pubkey)
    → get_vault_balance (update_vault_balance a n m) x
      ≡ (if x == a then some n else get_vault_balance m x)
unfolding get_vault_balance update_vault_balance
get_vault_balance-update a n m x = refl

pub is_vault-update :
    (a : Pubkey) (n : ℕ) (m : AccountMirror) (x : Pubkey)
    → is_vault (update_vault_balance a n m) x ≡ is_vault m x
unfolding is_vault update_vault_balance
is_vault-update a n m x = refl

pub pools_for_vault-update :
    (a : Pubkey) (n : ℕ) (m : AccountMirror) (x : Pubkey)
    → pools_for_vault (update_vault_balance a n m) x ≡ pools_for_vault m x
unfolding pools_for_vault update_vault_balance
pools_for_vault-update a n m x = refl

pub get_vault_balance-register :
    (a pool : Pubkey) (m : AccountMirror) (x : Pubkey)
    → get_vault_balance (register_vault a pool m) x ≡ get_vault_balance m x
unfolding get_vault_balance register_vault
get_vault_balance-register a pool m x = refl

pub is_vault-register :
    (a pool : Pubkey) (m : AccountMirror) (x : Pubkey)
    → is_vault (register_vault a pool m) x ≡ (x == a || is_vault m x)
unfolding is_vault register_vault
is_vault-register a pool m x = ground arith
