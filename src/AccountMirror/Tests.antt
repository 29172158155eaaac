-- ===== src/AccountMirror/Tests.antt =====
-- stream/account_mirror.rs: one vault's account read.
use flow_trades_solana.Base.{
  ℕ, zero, suc, ◌≡◌, refl, List, [], ◌∷◌, ◌++◌, some, if◌then◌else◌, ◌==◌, arith,
}
use flow_trades_solana.Base.Bytes.Laws.{to_le}
use flow_trades_solana.AccountMirror.{new, update_vault_from_bytes, get_vault_balance}
use flow_trades_solana.AccountMirror.Laws.{update_vault_from_bytes-get_vault_balance}

abbrev zeros : ℕ → List ℕ
zeros zero = []
zeros (suc n) = 0 ∷ zeros n

update_vault_from_bytes-get_vault_balance_example :
    let r = update_vault_from_bytes 7 (zeros 64 ++ (to_le 8 1_000_000 ++ zeros 93)) new in
    (r.0 ≡ some 1_000_000)
    × (get_vault_balance (r.1) 7 ≡ (if 7 == 7 then some 1_000_000 else get_vault_balance new 7))
update_vault_from_bytes-get_vault_balance_example =
    update_vault_from_bytes-get_vault_balance new 7 7 (zeros 64) (zeros 93) 1_000_000 refl
      (omega arith)
