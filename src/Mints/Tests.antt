-- ===== src/Mints/Tests.antt =====
-- pool/mints.rs: two entries and two bytes of padding.
use flow_trades_solana.Base.{ℕ, ◌≡◌, List, [], ◌∷◌, arith}
use flow_trades_solana.Mints.{entries}
use flow_trades_solana.Mints.Laws.{write_entries, entries-write_entries}

abbrev written : List (ℕ × List ℕ)
written = (3, 7 ∷ 8 ∷ []) ∷ (14, 9 ∷ []) ∷ []

entries-write_entries_example : entries 15 (write_entries written (0 ∷ 0 ∷ [])) ≡ written
entries-write_entries_example =
    entries-write_entries 15 written (0 ∷ 0 ∷ []) (ground arith) (omega arith) (omega arith)
