-- ===== src/MeteoraStd/Laws.antt =====
-- quote/meteora_std.rs: theorems on the swap through the vaults.
use flow_trades_solana.Base.{
  ℕ, ◌+◌, ◌-◌, ◌*◌, ◌/◌, ◌%◌, ◌≤◌, ◌<◌, ◌≡◌, Bool, some, arith, inl, inr, Option-cases, Bool-cases,
  ◌==◌, u64_max, le_trans, mul-le-mul,
}
use flow_trades_solana.Base.Arith.{lt-div-suc-mul}
use native.Mathlib.Nat.{div-add-mod}
use flow_trades_solana.MeteoraStd.Vault.{VaultShare, amount_by_share, unmint_amount, pool_amount}
use flow_trades_solana.MeteoraStd.Vault.Laws.{
  unmint_amount_no_gain, unmint_inversion, pool_amount_lem, deposit_gain,
}
use flow_trades_solana.MeteoraStd.{
  MeteoraStdReserves, fee_of, protocol_part, vault_in, vault_out, actual_input, curve_output,
  swap_exact_in,
}

-- Depositing `deposit` moves the curve by at most `deposit` less the LP fee.
actual_input-le :
    (vin : VaultShare) (deposit lp_fee now : ℕ) {x : ℕ}
    → 0 < vin.lp_supply
    → vin.pool_lp ≤ vin.lp_supply
    → vin.vault.total_amount ≤ u64_max
    → actual_input vin deposit lp_fee now ≡ some x
    → x + lp_fee ≤ deposit
unfolding actual_input
actual_input-le vin deposit lp_fee now {x} pos le small h =
    let same = pool_amount_lem vin now le pos small in
    elim (Option-cases (unmint_amount vin.vault deposit vin.lp_supply now)) [
      | inl none_minted ↦ ground arith
      | inr (m, minted) ↦
          let (_, worth, _) = unmint_inversion vin.vault deposit vin.lp_supply now minted in
          ground (arith, deposit_gain vin deposit m now pos le worth)
    ]

-- The curve keeps the product of its reserves.
curve_output-keeps :
    (i r x : ℕ) {o : ℕ}
    → 0 < i
    → curve_output i r x ≡ some o
    → (o ≤ r) × (i * r ≤ (i + x) * (r - o))
unfolding curve_output
curve_output-keeps i r x {o} pos h =
    let up = lt-div-suc-mul (i * r) (i + x) (omega arith) in
    let whole = div-add-mod (i * r) (i + x) in
    elim (Bool-cases (i * r % (i + x) == 0)) [
      | inl even ↦
          let rest : i * r % (i + x) ≡ 0 = ground arith in
          let left : (o ≤ r) × (r - o ≡ i * r / (i + x)) = ground arith in
          (left.0, rw left.1 (omega arith))
      | inr odd ↦
          let left : (o ≤ r) × (r - o ≡ i * r / (i + x) + 1) = ground arith in
          (left.0, rw left.1 (omega arith))
    ]

-- What a swap rests on.
pub record SwapParts (s : MeteoraStdReserves) (d : Bool) (amount now out fee : ℕ) : Type 0 where
  pub lp_fee : ℕ
  pub deposit : ℕ
  pub actual : ℕ
  pub dest : ℕ
  pub burned : ℕ
  pub fee_eq : fee_of amount s.trade_fee_numerator s.trade_fee_denominator ≡ some fee
  pub split : deposit + fee ≡ amount + lp_fee
  pub lp_fee_le : lp_fee ≤ fee
  pub supply_pos : 0 < (vault_in s d).lp_supply
  pub in_pos : 0 < pool_amount (vault_in s d) now
  pub actual_eq : actual_input (vault_in s d) deposit lp_fee now ≡ some actual
  pub dest_eq :
      curve_output (pool_amount (vault_in s d) now) (pool_amount (vault_out s d) now) actual
      ≡ some dest
  pub burned_eq :
      unmint_amount (vault_out s d).vault dest (vault_out s d).lp_supply now ≡ some burned
  pub out_eq : out ≡ amount_by_share (vault_out s d).vault burned (vault_out s d).lp_supply now
  pub out_pos : 0 < out
  pub out_lt : out < pool_amount (vault_out s d) now

module _ (s : MeteoraStdReserves) (d : Bool) (amount now : ℕ) where
  swap_parts :
      {out fee : ℕ}
      → swap_exact_in s d amount now ≡ some (out, fee)
      → SwapParts s d amount now out fee
  unfolding swap_exact_in
  swap_parts h = elim (Option-cases (fee_of amount s.trade_fee_numerator s.trade_fee_denominator)) [
    | inl e ↦ ground arith
    | inr (trade_fee, e) ↦ elim (Option-cases (protocol_part s trade_fee)) [
      | inl e1 ↦ ground arith
      | inr (protocol_fee, e1) ↦
          elim (Option-cases
            (actual_input (vault_in s d) (amount - protocol_fee) (trade_fee - protocol_fee) now)) [
              | inl e2 ↦ ground arith
              | inr (actual, e2) ↦
                  elim (Option-cases (
                    curve_output (pool_amount (vault_in s d) now) (pool_amount (vault_out s d) now)
                      actual)) [
                        | inl e3 ↦ ground arith
                        | inr (dest, e3) ↦
                            elim (Option-cases (
                              unmint_amount (vault_out s d).vault dest (vault_out s d).lp_supply
                                now)) [
                                  | inl e4 ↦ ground arith
                                  | inr (burned, e4) ↦ record {
                                    lp_fee = trade_fee - protocol_fee;
                                    deposit = amount - protocol_fee;
                                    actual = actual;
                                    dest = dest;
                                    burned = burned;
                                    fee_eq = ground arith;
                                    split = ground arith;
                                    lp_fee_le = ground arith;
                                    supply_pos = ground arith;
                                    in_pos = ground arith;
                                    actual_eq = e2;
                                    dest_eq = e3;
                                    burned_eq = e4;
                                    out_eq = ground arith;
                                    out_pos = ground arith;
                                    out_lt = ground arith;
                                  }
                                ]
                      ]
            ]
    ]
  ]

-- A swap pays out a positive amount below the pool's share of the output vault. Where the pool
-- holds at most the supply of the input vault's shares and that vault's balance fits a `u64`, the
-- product of the pool's two shares does not fall, counting only the input net of the trade fee:
-- the vaults' roundings never pay more than the plain constant-product curve.
pub swap_exact_in_keeps_product :
    (s : MeteoraStdReserves) (d : Bool) (amount now : ℕ) {out fee : ℕ}
    → (vault_in s d).pool_lp ≤ (vault_in s d).lp_supply
    → (vault_in s d).vault.total_amount ≤ u64_max
    → swap_exact_in s d amount now ≡ some (out, fee)
    → let i = pool_amount (vault_in s d) now in
      let r = pool_amount (vault_out s d) now in
      (0 < out) × (out < r) × (i * r ≤ (i + (amount - fee)) * (r - out))
swap_exact_in_keeps_product s d amount now {out} {fee} le small h =
    let q = swap_parts s d amount now h in
    let i = pool_amount (vault_in s d) now in
    let r = pool_amount (vault_out s d) now in
    let net =
      actual_input-le (vault_in s d) q.deposit q.lp_fee now q.supply_pos le small q.actual_eq in
    let (dest_le, kept) = curve_output-keeps i r q.actual q.in_pos q.dest_eq in
    let paid : out ≤ q.dest = rw q.out_eq (
      unmint_amount_no_gain (vault_out s d).vault q.dest (vault_out s d).lp_supply now
        q.burned_eq) in
    let split = q.split in
    let wider : (i + q.actual) * (r - q.dest) ≤ (i + (amount - fee)) * (r - out) =
      mul-le-mul (omega arith) (omega arith) in
    (q.out_pos, q.out_lt, le_trans kept wider)
