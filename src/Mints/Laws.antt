-- ===== src/Mints/Laws.antt =====
-- pool/mints.rs: theorems on the extensions of a mint and on what a transfer withholds.
use flow_trades_solana.Base.{
  ℕ, zero, suc, ◌+◌, ◌*◌, ◌/◌, ◌%◌, ◌≤◌, ◌<◌, ◌≡◌, refl, ap, ◌∙◌, false, not, some, List, [], ◌∷◌,
  ◌++◌, ◌||◌, leb, ◌==◌, length, All, div_ceil, u64_max, arith, mul-le-mul_left,
}
use flow_trades_solana.Base.Arith.{div_ceil-le}
use flow_trades_solana.Base.Bytes.{Pubkey}
use flow_trades_solana.Base.Bytes.Laws.{length-append, take-append, drop-append}
use flow_trades_solana.Mints.{
  TransferFee, MintInfo, fee, transfer_fee, net_of_transfer_fee, entries,
}

-- An entry as a token program writes it.
abbrev pub write_entry : ℕ × List ℕ → List ℕ → List ℕ
write_entry (typ, body) rest =
    typ % 256 ∷ typ / 256 ∷ length body % 256 ∷ length body / 256 ∷ (body ++ rest)

abbrev pub write_entries : List (ℕ × List ℕ) → List ℕ → List ℕ
write_entries [] rest = rest
write_entries (e ∷ es) rest = write_entry e (write_entries es rest)

abbrev pub Writable : ℕ × List ℕ → Type 0
Writable (typ, body) = (0 < typ) × (typ < 65_536) × (length body < 65_536)

entry_read :
    (fuel typ : ℕ) (body rest : List ℕ)
    → 0 < typ
    → entries (suc fuel) (write_entry (typ, body) rest) ≡ ((typ, body) ∷ entries fuel rest)
unfolding entries
entry_read fuel typ body rest h =
    let t : typ % 256 + 256 * (typ / 256) ≡ typ = omega arith in
    let l : length body % 256 + 256 * (length body / 256) ≡ length body = omega arith in
    let whole = length-append body rest in
    let fits : (not (leb (length body) (length (body ++ rest))) || typ == 0) ≡ false =
      ground (arith, whole) in
    rw t (
      rw l (
        rw fits (
          rw (take-append (length body) body rest refl)
            (rw (drop-append (length body) body rest refl) refl))))

no_entry : (fuel : ℕ) (rest : List ℕ) → length rest < 4 → entries (suc fuel) rest ≡ []
unfolding entries
no_entry fuel [] h = refl
no_entry fuel (a ∷ []) h = refl
no_entry fuel (a ∷ b ∷ []) h = refl
no_entry fuel (a ∷ b ∷ c ∷ []) h = refl
no_entry fuel (a ∷ b ∷ c ∷ d ∷ more) h = ground (arith, h)

-- Entries of a positive type, with types and lengths of 16 bits, that are written one after another, with fewer
-- than four bytes after them, are read back on fuel that is more than their number.
pub entries-write_entries :
    (fuel : ℕ) (es : List (ℕ × List ℕ)) (rest : List ℕ)
    → All Writable es
    → length es < fuel
    → length rest < 4
    → entries fuel (write_entries es rest) ≡ es
entries-write_entries zero es rest w h short = ground (arith, h)
entries-write_entries (suc fuel) [] rest w h short = no_entry fuel rest short
entries-write_entries (suc fuel) ((typ, body) ∷ es) rest (e, w) h short =
    entry_read fuel typ body (write_entries es rest) (e.0)
    ∙ ap (λ t. (typ, body) ∷ t) (entries-write_entries fuel es rest w (omega arith) short)

-- The net amount of a transfer and its fee make up the amount, and the fee is at most the mint's maximum.
pub net_of_transfer_fee-fee :
    (i : MintInfo) (mint : Pubkey) (amount : ℕ) (f : TransferFee)
    → i.fees mint ≡ some f
    → f.basis_points ≤ 10_000
    → amount ≤ u64_max
    → (net_of_transfer_fee i mint amount + fee f amount ≡ amount) × (fee f amount ≤ f.maximum_fee)
unfolding net_of_transfer_fee fee transfer_fee
net_of_transfer_fee-fee i mint amount f e hb h =
    let up : div_ceil (amount * f.basis_points) 10_000 ≤ amount =
      div_ceil-le (amount * f.basis_points) 10_000 amount (omega arith)
        (mul-le-mul_left amount hb) in
    ground (arith, up, e)
