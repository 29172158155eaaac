-- ===== src/MeteoraStd/Vault/Laws.antt =====
-- quote/meteora_std.rs: theorems on a vault and its shares.
use flow_trades_solana.Base.{
  ℕ, ◌+◌, ◌-◌, ◌*◌, ◌/◌, ◌≤◌, ◌<◌, ◌≡◌, ap, some, min, arith, inl, inr, Bool-cases, ◌==◌, le_trans,
  mul-le-mul_left, mul-le-mul_right, u64_max, u128_max,
}
use flow_trades_solana.Base.Arith.{
  div_mono, div-mul-le, div-le_self_of_le, lt-div-suc-mul, div-lt, le_of_mul-le,
}
use flow_trades_solana.MeteoraStd.Vault.{
  VaultView, VaultShare, locked_profit_degradation_denominator, locked_profit, unlocked_amount,
  amount_by_share, unmint_amount, pool_amount,
}

abbrev melted : VaultView → ℕ → ℕ
melted v now = min ((now - v.last_report) * v.locked_profit_degradation) u128_max

melted_mono : (v : VaultView) (a b : ℕ) → a ≤ b → melted v a ≤ melted v b
melted_mono v a b h =
    let later : a - v.last_report ≤ b - v.last_report = omega arith in
    omega (arith, mul-le-mul_right v.locked_profit_degradation later)

-- The profit still locked, over the denominator.
abbrev locked_part : VaultView → ℕ → ℕ
locked_part v now =
    v.last_updated_locked_profit * (locked_profit_degradation_denominator - melted v now)

locked_part-le :
    (v : VaultView) (now : ℕ)
    → locked_part v now / locked_profit_degradation_denominator ≤ v.last_updated_locked_profit
locked_part-le v now =
    div-le_self_of_le v.last_updated_locked_profit (locked_part v now)
      locked_profit_degradation_denominator (omega arith)
      (mul-le-mul_left v.last_updated_locked_profit (omega arith))

-- While the profit fits a `u64`, what is locked never grows with time and never exceeds the reported
-- profit, so the amount that the vault's shares are worth never falls.
pub locked_profit_decays :
    (v : VaultView) (a b : ℕ)
    → v.last_updated_locked_profit ≤ u64_max
    → a ≤ b
    → (locked_profit v b ≤ locked_profit v a)
      × (locked_profit v a ≤ v.last_updated_locked_profit)
      × (unlocked_amount v a ≤ unlocked_amount v b)
unfolding unlocked_amount locked_profit
locked_profit_decays v a b small h =
    let d = locked_profit_degradation_denominator in
    let less = melted_mono v a b h in
    let part : locked_part v b / d ≤ locked_part v a / d =
      div_mono (locked_part v b) (locked_part v a) d (omega arith)
        (mul-le-mul_left v.last_updated_locked_profit (omega arith)) in
    let le_a = locked_part-le v a in
    let le_b = locked_part-le v b in
    (
      ground (arith, less, part, le_a, le_b),
      ground (arith, less, part, le_a, le_b),
      ground (arith, less, part, le_a, le_b),
    )

pub unmint_inversion :
    (v : VaultView) (amount lp_supply now : ℕ) {shares : ℕ}
    → unmint_amount v amount lp_supply now ≡ some shares
    → (0 < unlocked_amount v now)
      × (shares * unlocked_amount v now ≤ amount * lp_supply)
      × (shares ≤ u64_max)
unfolding unmint_amount
unmint_inversion v amount lp_supply now h =
    ground (arith, div-mul-le (amount * lp_supply) (unlocked_amount v now))

pub by_share-le :
    (v : VaultView) (share lp_supply now amount : ℕ)
    → share * unlocked_amount v now ≤ amount * lp_supply
    → amount_by_share v share lp_supply now ≤ amount
unfolding amount_by_share
by_share-le v share lp_supply now amount h = elim (Bool-cases (lp_supply == 0)) [
  | inl empty ↦ rw empty (omega arith)
  | inr held ↦ rw held (
      omega (
        arith,
        div-le_self_of_le amount (share * unlocked_amount v now) lp_supply (ground arith) h,
      ))
]

-- Burning the shares that an amount is worth never pays out more than that amount.
pub unmint_amount_no_gain :
    (v : VaultView) (amount lp_supply now : ℕ) {shares : ℕ}
    → unmint_amount v amount lp_supply now ≡ some shares
    → amount_by_share v shares lp_supply now ≤ amount
unmint_amount_no_gain v amount lp_supply now {shares} h =
    by_share-le v shares lp_supply now amount (unmint_inversion v amount lp_supply now h).1

-- The pool's share in a vault whose balance fits a `u64`, when the pool holds at most the supply.
pub pool_amount_lem :
    (s : VaultShare) (now : ℕ)
    → s.pool_lp ≤ s.lp_supply
    → 0 < s.lp_supply
    → s.vault.total_amount ≤ u64_max
    → pool_amount s now ≡ s.pool_lp * unlocked_amount s.vault now / s.lp_supply
unfolding pool_amount amount_by_share unlocked_amount
pool_amount_lem s now le pos small =
    let u = s.vault.total_amount - locked_profit s.vault now in
    let most : s.pool_lp * u / s.lp_supply ≤ u =
      div-le_self_of_le u (s.pool_lp * u) s.lp_supply pos (omega (arith, mul-le-mul_right u le)) in
    ground (arith, most)

-- Shares `p` of `l` in a vault worth `u`; a deposit of `d` mints at most `m` shares for it. The
-- holder of `p` and of the new shares is then worth at most `d` more.
pub mint_gain :
    (p l u m d : ℕ) → 0 < l → p ≤ l → m * u ≤ d * l → (p + m) * (u + d) / (l + m) ≤ p * u / l + d
mint_gain p l u m d pos le minted =
    let q = p * u / l in
    let r = l - p in
    let e : l ≡ p + r = omega arith in
    let above : p * u < q * l + l = lt-div-suc-mul (p * u) l pos in
    let others : m * u * r ≤ d * l * r = mul-le-mul_right r minted in
    let own : p * u * m ≤ (q * l + l) * m = mul-le-mul_right m (omega arith) in
    let scaled : (p * d + m * u) * l ≤ ((q + 1) * m + d * l) * l =
      omega (arith, others, own, ap (λ (t : ℕ). m * u * t) e, ap (λ (t : ℕ). d * l * t) e) in
    let fair : p * d + m * u ≤ (q + 1) * m + d * l = le_of_mul-le _ _ l pos scaled in
    let below : (p + m) * (u + d) < (q + d + 1) * (l + m) = omega (arith, fair, above) in
    omega (arith, div-lt ((p + m) * (u + d)) (l + m) (q + d + 1) (omega arith) below)

pub by_share-le-div :
    (v : VaultView) (share lp_supply now : ℕ)
    → amount_by_share v share lp_supply now ≤ share * unlocked_amount v now / lp_supply
unfolding amount_by_share
by_share-le-div v share lp_supply now = ground arith

-- What the pool's shares are worth after a deposit that minted `m` of them.
pub deposit_gain :
    (s : VaultShare) (d m now : ℕ)
    → 0 < s.lp_supply
    → s.pool_lp ≤ s.lp_supply
    → m * unlocked_amount s.vault now ≤ d * s.lp_supply
    → amount_by_share
        (record s.vault { total_amount = s.vault.total_amount + d })
        (s.pool_lp + m)
        (s.lp_supply + m)
        now
      ≤ s.pool_lp * unlocked_amount s.vault now / s.lp_supply + d
unfolding unlocked_amount locked_profit
deposit_gain s d m now pos le minted =
    let grown : VaultView = record s.vault { total_amount = s.vault.total_amount + d } in
    let u = unlocked_amount s.vault now in
    let more : unlocked_amount grown now ≤ u + d = omega arith in
    let scaled : (s.pool_lp + m) * unlocked_amount grown now ≤ (s.pool_lp + m) * (u + d) =
      mul-le-mul_left (s.pool_lp + m) more in
    le_trans (by_share-le-div grown (s.pool_lp + m) (s.lp_supply + m) now) (
      le_trans (div_mono _ _ (s.lp_supply + m) (omega arith) scaled)
        (mint_gain s.pool_lp s.lp_supply u m d pos le minted))
