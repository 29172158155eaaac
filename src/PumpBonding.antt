-- ===== src/PumpBonding.antt =====
-- quote/pump_bonding.rs: the pump.fun bonding curve, exact input. The process-wide table of fee
-- tiers is an argument: what `set_fee_tiers` last installed, or `none`.
mod Tests
pub mod Laws
use flow_trades_solana.Base.{
  ℕ, zero, suc, ◌+◌, ◌-◌, ◌*◌, ◌/◌, ◌%◌, ◌^◌, Bool, true, false, Option, none, some, ◌||◌, ◌&&◌,
  not, ltb, leb, ◌==◌, if◌then◌else◌, ◌>>=◌, ◌>>◌, refuse_if, checked_sub, checked_add_u64, to_u64,
  div_ceil, List, [], ◌∷◌, reverse, u64_max,
}

abbrev pub bps : ℕ
bps = 10_000

-- execution/amms/pumpfun_amm.rs
pub record FeeTier : Type 0 where
  pub market_cap_lamports : ℕ
  pub lp_bps : ℕ
  pub protocol_bps : ℕ
  pub creator_bps : ℕ

abbrev pub default_tier : FeeTier
default_tier = record { market_cap_lamports = 0; lp_bps = 0; protocol_bps = 95; creator_bps = 30 }

-- The first tier of the list that the market cap reaches.
unfoldable pub find_tier : ℕ → List FeeTier → Option FeeTier
find_tier market_cap [] = none
find_tier market_cap (t ∷ tiers) =
    if leb t.market_cap_lamports market_cap then some t else find_tier market_cap tiers

tier_for : Option (List FeeTier) → ℕ → FeeTier
tier_for none market_cap = default_tier
tier_for (some []) market_cap = default_tier
tier_for (some (t ∷ tiers)) market_cap = elim (find_tier market_cap (reverse (t ∷ tiers))) [
  | none ↦ t
  | some found ↦ found
]

pub tier_fees : Option (List FeeTier) → ℕ → ℕ × ℕ
tier_fees tiers market_cap = let t = tier_for tiers market_cap in (t.protocol_bps, t.creator_bps)

pub record PumpCurve : Type 0 where
  pub virtual_token_reserves : ℕ
  pub virtual_sol_reserves : ℕ
  pub real_token_reserves : ℕ
  pub real_sol_reserves : ℕ
  pub token_total_supply : ℕ
  pub complete : Bool
  pub is_mayhem_mode : Bool
  pub is_cashback_coin : Bool
  pub non_sol_quote : Bool
  pub has_creator : Bool
  pub creator_fee_bps : ℕ

pub record PumpQuote : Type 0 where
  pub amount_out : ℕ
  pub fee : ℕ

-- The cast to `u64` keeps the low bits.
pub ceil_bps : ℕ → ℕ → ℕ
ceil_bps amount rate = div_ceil (amount * rate) bps % 2 ^ 64

pub quotable : PumpCurve → Bool
quotable c =
    not c.complete
    && not c.non_sol_quote
    && not c.is_cashback_coin
    && ltb 0 c.virtual_token_reserves
    && ltb 0 c.virtual_sol_reserves

pub market_cap : PumpCurve → ℕ
market_cap c =
    if c.virtual_token_reserves == 0
    then 0
    else c.virtual_sol_reserves * c.token_total_supply / c.virtual_token_reserves

pub fee_bps : Option (List FeeTier) → PumpCurve → ℕ × ℕ
fee_bps tiers c =
    let (protocol, tier_creator) = tier_fees tiers (market_cap c) in
    let creator =
      if not c.has_creator
      then 0
      else if ltb 0 c.creator_fee_bps
      then c.creator_fee_bps
      else tier_creator in
    (protocol, creator)

-- The two fees on an amount; the sum of two `u64` wraps in a release build.
pub both_fees : ℕ → ℕ → ℕ → ℕ
both_fees p c amount = (ceil_bps amount p + ceil_bps amount c) % 2 ^ 64

pub fees : Option (List FeeTier) → PumpCurve → ℕ → ℕ
fees tiers c sol = let (p, q) = fee_bps tiers c in both_fees p q sol

-- `while x > 0 && x.checked_add(fees(x))? > sol_in { x -= 1 }`, on `x`.
pub shrink : ℕ → ℕ → ℕ → ℕ → Option ℕ
shrink p c sol_in zero = some 0
shrink p c sol_in (suc x) = elim (checked_add_u64 (suc x) (both_fees p c (suc x))) [
  | none ↦ none
  | some total ↦ elim (ltb sol_in total) [ true ↦ shrink p c sol_in x | false ↦ some (suc x) ]
]

-- The largest amount that fits the budget together with its fees.
pub priced_in : ℕ → ℕ → ℕ → Option ℕ
priced_in p c sol_in = do x ← to_u64 (sol_in * bps / (bps + p + c)); shrink p c sol_in x

pub buy_exact_in : Option (List FeeTier) → PumpCurve → ℕ → Option PumpQuote
buy_exact_in tiers curve sol_in = do
  refuse_if (not (quotable curve) || sol_in == 0)
  let (p, c) = fee_bps tiers curve
  x ← priced_in p c sol_in
  refuse_if (leb x 1)
  let priced = x - 1
  tokens ← to_u64 (priced * curve.virtual_token_reserves / (curve.virtual_sol_reserves + priced))
  refuse_if (tokens == 0 || leb curve.real_token_reserves tokens)
  some (record { amount_out = tokens; fee = both_fees p c x })

pub sell_exact_in : Option (List FeeTier) → PumpCurve → ℕ → Option PumpQuote
sell_exact_in tiers curve tokens_in = do
  refuse_if (not (quotable curve) || tokens_in == 0)
  gross ←
      to_u64 (tokens_in * curve.virtual_sol_reserves / (curve.virtual_token_reserves + tokens_in))
  refuse_if (gross == 0 || ltb curve.real_sol_reserves gross)
  let fee = fees tiers curve gross
  net ← checked_sub gross fee
  refuse_if (net == 0)
  some (record { amount_out = net; fee = fee })
