-- ===== src/Mints.antt =====
-- pool/mints.rs: what is known of a mint: its token program, its transfer fee, whether it has a transfer hook. A
-- concurrent map or set is a function, and each operation runs alone. The look-up of unknown mints by RPC is not
-- modelled.
mod Tests
pub mod Laws
use flow_trades_solana.Base.{
  ℕ, zero, suc, ◌+◌, ◌-◌, ◌*◌, ◌/◌, ◌%◌, ◌^◌, min, Bool, true, false, not, Option, none, some, List,
  [], ◌∷◌, ◌||◌, ◌&&◌, ltb, leb, ◌==◌, if◌then◌else◌, ◌>>=◌, length, get_elem?, div_ceil,
}
use flow_trades_solana.Base.Bytes.{Pubkey, take, drop, number_at, slice}

abbrev pub token_2022_program_id : Pubkey
token_2022_program_id = 0x6ddf6e1ee758fde18425dbce46ccddab61afc4d83b90d27febdf928d8a18bfc

abbrev pub ext_transfer_fee_config : ℕ
ext_transfer_fee_config = 1

abbrev pub ext_transfer_hook : ℕ
ext_transfer_hook = 14

pub record TransferFee : Type 0 where
  pub basis_points : ℕ
  pub maximum_fee : ℕ

-- `TransferFee::fee`.
pub fee : TransferFee → ℕ → ℕ
fee f amount =
    if f.basis_points == 0 || amount == 0
    then 0
    else min (div_ceil (amount * f.basis_points) 10_000 % 2 ^ 64) f.maximum_fee

-- `KNOWN`, `FEES`, `PROGRAMS` and `HOOKED`.
pub record MintInfo : Type 0 where
  pub known : Pubkey → Bool
  pub fees : Pubkey → Option TransferFee
  pub programs : Pubkey → Option Pubkey
  pub hooked : Pubkey → Bool

pub transfer_fee : MintInfo → Pubkey → Option TransferFee
transfer_fee i mint = i.fees mint

pub is_known : MintInfo → Pubkey → Bool
is_known i mint = i.known mint

pub token_program : MintInfo → Pubkey → Option Pubkey
token_program i mint = i.programs mint

pub has_transfer_hook : MintInfo → Pubkey → Bool
has_transfer_hook i mint = i.hooked mint

pub net_of_transfer_fee : MintInfo → Pubkey → ℕ → ℕ
net_of_transfer_fee i mint amount = elim (transfer_fee i mint) [
  | none ↦ amount
  | some f ↦ amount - fee f amount
]

-- The loop over the entries, on the bytes that are left; each entry takes one of the fuel.
pub entries : (fuel : ℕ) → List ℕ → List (ℕ × List ℕ)
entries zero rest = []
entries (suc fuel) (t0 ∷ t1 ∷ l0 ∷ l1 ∷ more) =
    let typ = t0 + 256 * t1 in
    let len = l0 + 256 * l1 in
    let next = entries fuel (drop len more) in
    if not (leb len (length more)) || typ == 0 then [] else (typ, take len more) ∷ next
entries (suc fuel) _ = []

pub mint_extensions : List ℕ → List (ℕ × List ℕ)
mint_extensions bytes =
    let is_mint : Bool = elim (get_elem? bytes 165) [ none ↦ false | some b ↦ b == 1 ] in
    if ltb (length bytes) 166 || not is_mint then [] else entries (length bytes) (drop 166 bytes)

-- The first entry of a type with a body of at least that length.
find_entry : (typ least : ℕ) → List (ℕ × List ℕ) → Option (List ℕ)
find_entry typ least [] = none
find_entry typ least ((t, body) ∷ rest) =
    let later = find_entry typ least rest in
    if t == typ && leb least (length body) then some body else later

pub parse_transfer_fee : List ℕ → Option TransferFee
parse_transfer_fee bytes = do
  body ← find_entry ext_transfer_fee_config 108 (mint_extensions bytes)
  older_max ← number_at body 80 8
  older_bps ← number_at body 88 2
  newer_max ← number_at body 98 8
  newer_bps ← number_at body 106 2
  some (
      if leb older_bps newer_bps
      then record { basis_points = newer_bps; maximum_fee = newer_max }
      else record { basis_points = older_bps; maximum_fee = older_max })

any_nonzero : List ℕ → Bool
any_nonzero [] = false
any_nonzero (b ∷ rest) = not (b == 0) || any_nonzero rest

-- Whether some entry sets a hook program.
sets_hook : List (ℕ × List ℕ) → Bool
sets_hook [] = false
sets_hook ((t, body) ∷ rest) =
    (t == ext_transfer_hook && leb 64 (length body) && any_nonzero (take 32 (drop 32 body)))
    || sets_hook rest

-- A fee of zero is not kept.
kept_fee : Option TransferFee → Option TransferFee → Option TransferFee
kept_fee none before = before
kept_fee (some f) before = if f.basis_points == 0 then before else some f

-- `record`, a reserved word here.
pub record_mint : (mint owner : Pubkey) → List ℕ → MintInfo → MintInfo
record_mint mint owner bytes i =
    let extended = owner == token_2022_program_id in
    let fee_now =
      if extended then kept_fee (parse_transfer_fee bytes) (i.fees mint) else i.fees mint in
    let hook_now = (extended && sets_hook (mint_extensions bytes)) || i.hooked mint in
    record {
      known = λ k. k == mint || i.known k;
      fees = λ k. if k == mint then fee_now else i.fees k;
      programs = λ k. if k == mint then some owner else i.programs k;
      hooked = λ k. if k == mint then hook_now else i.hooked k;
    }
