-- ===== src/Clmm/Price.antt =====
-- quote/clmm.rs: the square-root price of a tick, from each program's own table, and the tick of a price.
-- A division by zero, where the source panics, is `none`.
mod Tests
use flow_trades_solana.Base.{
  ℕ, zero, suc, ◌+◌, ◌-◌, ◌*◌, ◌/◌, ◌%◌, ◌^◌, Bool, true, false, ◌||◌, Option, none, some, List, [],
  ◌∷◌, ltb, leb, ◌==◌, if◌then◌else◌, ◌>>=◌, ◌>>◌, refuse_if, u128_max, checked_div,
}
use flow_trades_solana.Base.Int.{
  ℤ, pos, negsuc, pos_part, neg_part, ◌+ℤ◌, ◌-ℤ◌, ◌*ℤ◌, div_euclid, ltb_ℤ, eq_ℤ,
}
use flow_trades_solana.Clmm.Wide.{wide_mul}

abbrev pub q64 : ℕ
q64 = 2 ^ 64

abbrev pub min_tick : ℤ
min_tick = negsuc 443_635

abbrev pub max_tick : ℤ
max_tick = pos 443_636

-- The loop over a table: bit `i + 1` of the tick for the ratio at `i`; `bits` starts at the tick without
-- its lowest bit.
multiplied : (ℕ → ℕ → ℕ) → List ℕ → (bits ratio : ℕ) → ℕ
multiplied by [] bits ratio = ratio
multiplied by (r ∷ ratios) bits ratio =
    multiplied by ratios (bits / 2) (if bits % 2 == 1 then by ratio r else ratio)

-- `(ratio * r) >> 64`, on 128 bits.
by_q64 : ℕ → ℕ → ℕ
by_q64 ratio r = ratio * r % 2 ^ 128 / 2 ^ 64

-- `(wide_mul(ratio, r) >> 96).low_u128()`.
by_q96 : ℕ → ℕ → ℕ
by_q96 ratio r = wide_mul ratio r / 2 ^ 96 % 2 ^ 128

abbrev raydium_ratios : List ℕ
raydium_ratios =
    0xfff97272373d4000 ∷ 0xfff2e50f5f657000 ∷ 0xffe5caca7e10f000 ∷ 0xffcb9843d60f7000
    ∷ 0xff973b41fa98e800 ∷ 0xff2ea16466c9b000 ∷ 0xfe5dee046a9a3800 ∷ 0xfcbe86c7900bb000
    ∷ 0xf987a7253ac65800 ∷ 0xf3392b0822bb6000 ∷ 0xe7159475a2caf000 ∷ 0xd097f3bdfd2f2000
    ∷ 0xa9f746462d9f8000 ∷ 0x70d869a156f31c00 ∷ 0x31be135f97ed3200 ∷ 0x9aa508b5b85a500
    ∷ 0x5d6af8dedc582c ∷ 0x2216e584f5fa ∷ []

abbrev is_positive : ℤ → Bool
is_positive t = ltb_ℤ (pos 0) t

unfoldable pub raydium_sqrt_price_at_tick : ℤ → Option ℕ
unfolding multiplied by_q64
raydium_sqrt_price_at_tick tick =
    let abs = pos_part tick + neg_part tick in
    let first = if abs % 2 == 1 then 0xfffcb933bd6fb800 else q64 in
    let ratio = multiplied by_q64 raydium_ratios (abs / 2) first in
    if is_positive tick then checked_div u128_max ratio else some ratio

abbrev orca_ratios_up : List ℕ
orca_ratios_up =
    79236085330515764027303304731 ∷ 79244008939048815603706035061 ∷ 79259858533276714757314932305
    ∷ 79291567232598584799939703904 ∷ 79355022692464371645785046466 ∷ 79482085999252804386437311141
    ∷ 79736823300114093921829183326 ∷ 80248749790819932309965073892 ∷ 81282483887344747381513967011
    ∷ 83390072131320151908154831281 ∷ 87770609709833776024991924138 ∷ 97234110755111693312479820773
    ∷ 119332217159966728226237229890 ∷ 179736315981702064433883588727
    ∷ 407748233172238350107850275304 ∷ 2098478828474011932436660412517
    ∷ 55581415166113811149459800483533 ∷ 38992368544603139932233054999993551 ∷ []

abbrev orca_ratios_down : List ℕ
orca_ratios_down =
    18444899583751176498 ∷ 18443055278223354162 ∷ 18439367220385604838 ∷ 18431993317065449817
    ∷ 18417254355718160513 ∷ 18387811781193591352 ∷ 18329067761203520168 ∷ 18212142134806087854
    ∷ 17980523815641551639 ∷ 17526086738831147013 ∷ 16651378430235024244 ∷ 15030750278693429944
    ∷ 12247334978882834399 ∷ 8131365268884726200 ∷ 3584323654723342297 ∷ 696457651847595233
    ∷ 26294789957452057 ∷ 37481735321082 ∷ []

pub orca_sqrt_price_at_tick : ℤ → ℕ
unfolding multiplied by_q64 by_q96
orca_sqrt_price_at_tick (pos t) =
    let first =
      if t % 2 == 1 then 79232123823359799118286999567 else 79228162514264337593543950336 in
    multiplied by_q96 orca_ratios_up (t / 2) first / 2 ^ 32
orca_sqrt_price_at_tick (negsuc n) =
    let abs = suc n in
    let first = if abs % 2 == 1 then 18445821805675392311 else q64 in
    multiplied by_q64 orca_ratios_down (abs / 2) first

-- `127 - leading_zeros`: the index of the highest bit of a positive 128-bit number, on 127 halvings.
msb : ℕ → ℕ → ℕ
msb zero n = 0
msb (suc fuel) n = let rest = suc (msb fuel (n / 2)) in if leb n 1 then 0 else rest

-- `rounds` of the logarithm's bits are left.
log_fraction : ℕ → (bit r fraction : ℕ) → ℕ
log_fraction zero bit r fraction = fraction
log_fraction (suc rounds) bit r fraction =
    let square = r * r % 2 ^ 128 in
    let more = square / 2 ^ 127 in
    log_fraction rounds (bit / 2) (square / 2 ^ (63 + more)) (fraction + bit * more)

-- `none` at a price of zero, which has no highest bit.
pub orca_tick_at_sqrt_price : ℕ → Option ℤ
unfolding msb log_fraction
orca_tick_at_sqrt_price sqrt_price =
    let top = msb 127 sqrt_price in
    let r = if leb 64 top then sqrt_price / 2 ^ (top - 63) else sqrt_price * 2 ^ (63 - top) in
    let fraction = log_fraction 14 (2 ^ 63) r 0 in
    let log2p = (pos top -ℤ pos 64) *ℤ 2 ^ 32 +ℤ pos (fraction / 2 ^ 32) in
    let logbp = log2p *ℤ 59_543_866_431_248 in
    let tick_low = div_euclid (logbp -ℤ pos 184_467_440_737_095_516) (2 ^ 64) in
    let tick_high = div_euclid (logbp +ℤ pos 15_793_534_762_490_258_745) (2 ^ 64) in
    if sqrt_price == 0
    then none
    else some (
        if eq_ℤ tick_low tick_high || ltb sqrt_price (orca_sqrt_price_at_tick tick_high)
        then tick_low
        else tick_high)
