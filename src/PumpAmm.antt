-- ===== src/PumpAmm.antt =====
-- execution/amms/pumpfun_amm.rs: the fee tier that a pump.fun AMM pool pays. The process-wide tables are an argument,
-- with the defaults in their place while nothing is installed.
mod Tests
use flow_trades_solana.Base.{
  ℕ, ◌+◌, ◌*◌, ◌%◌, ◌^◌, Bool, true, false, Option, none, some, ◌||◌, ◌&&◌, ltb, ◌==◌,
  if◌then◌else◌, ◌>>=◌, ◌>>◌, refuse_if, checked_mul, checked_div, List, [], ◌∷◌, reverse, map,
}
use flow_trades_solana.Base.Bytes.{Pubkey}
use flow_trades_solana.PumpBonding.{FeeTier, find_tier}
use flow_trades_solana.PoolState.{PoolState}
use flow_trades_solana.PoolState.Vaults.{PumpFunAmm}
use flow_trades_solana.Router.Reserves.{sol_native_mint}

pub total_bps : FeeTier → ℕ
total_bps t = (t.lp_bps + t.protocol_bps + t.creator_bps) % 2 ^ 16

-- (threshold in SOL, lp, protocol, creator)
abbrev default_rows : List (ℕ × ℕ × ℕ × ℕ)
default_rows =
    (0, 2, 93, 30)
    ∷ (420, 20, 5, 95)
    ∷ (1_470, 20, 5, 90)
    ∷ (2_460, 20, 5, 85)
    ∷ (3_440, 20, 5, 80)
    ∷ (4_420, 20, 5, 75)
    ∷ (9_820, 20, 5, 70)
    ∷ (14_740, 20, 5, 65)
    ∷ (19_650, 20, 5, 60)
    ∷ (24_560, 20, 5, 55)
    ∷ (29_470, 20, 5, 50)
    ∷ (34_380, 20, 5, 45)
    ∷ (39_300, 20, 5, 40)
    ∷ (44_210, 20, 5, 35)
    ∷ (49_120, 20, 5, 30)
    ∷ (54_030, 20, 5, 28)
    ∷ (58_940, 20, 5, 25)
    ∷ (63_860, 20, 5, 23)
    ∷ (68_770, 20, 5, 20)
    ∷ (73_681, 20, 5, 18)
    ∷ (78_590, 20, 5, 15)
    ∷ (83_500, 20, 5, 13)
    ∷ (88_400, 20, 5, 10)
    ∷ (93_330, 20, 5, 8)
    ∷ (98_240, 20, 5, 5)
    ∷ []

pub tier_of_row : ℕ × ℕ × ℕ × ℕ → FeeTier
tier_of_row (sol, lp, protocol, creator) = record {
  market_cap_lamports = sol * 1_000_000_000;
  lp_bps = lp;
  protocol_bps = protocol;
  creator_bps = creator;
}

pub default_tiers : List FeeTier
default_tiers = map tier_of_row default_rows

pub record FeeSchedules : Type 0 where
  pub flat : FeeTier
  pub stable_tiers : List FeeTier
  pub exotic_flat : FeeTier
  pub creator_fee_configurable : Bool

abbrev pub default_schedules : FeeSchedules
default_schedules = record {
  flat = record { market_cap_lamports = 0; lp_bps = 25; protocol_bps = 5; creator_bps = 0 };
  stable_tiers = [];
  exotic_flat = record { market_cap_lamports = 0; lp_bps = 20; protocol_bps = 5; creator_bps = 5 };
  creator_fee_configurable = true;
}

-- FEE_TIERS and FEE_SCHEDULES.
pub record FeeTables : Type 0 where
  pub fee_tiers : Option (List FeeTier)
  pub fee_schedules : Option FeeSchedules

pub tiers_of : FeeTables → List FeeTier
tiers_of tables = elim (tables.fee_tiers) [ none ↦ default_tiers | some tiers ↦ tiers ]

pub schedules_of : FeeTables → FeeSchedules
schedules_of tables = elim (tables.fee_schedules) [ none ↦ default_schedules | some s ↦ s ]

abbrev pump_amm_total_token_supply : ℕ
pump_amm_total_token_supply = 1_000_000_000_000_000

pub pamm_market_cap_lamports : PumpFunAmm → Option ℕ
pamm_market_cap_lamports s = do
  let supply = if s.pamm_flags.mayhem then pump_amm_total_token_supply else s.base_supply
  refuse_if (s.base_reserve == 0 || supply == 0)
  worth ← checked_mul (s.quote_reserve + s.virtual_quote_reserve) supply
  checked_div worth s.base_reserve

abbrev native_mint_2022 : Pubkey
native_mint_2022 = 0x830dfc9fde5fe6b8aa7c04a476e91e8ac6bb264aad90fa19c9df49d85c3e5b5e

abbrev usdc_mint : Pubkey
usdc_mint = 0xc6fa7af3bedbad3a3d65f36aabc97431b1bbe4c2d2f6e0e47ca60203452f5d61

pub is_sol_like_quote : Pubkey → Bool
is_sol_like_quote mint = mint == 0 || mint == sol_native_mint || mint == native_mint_2022

-- `max_by_key`, the last of several.
pub dearest : List FeeTier → Option FeeTier
dearest [] = none
dearest (t ∷ tiers) = elim (dearest tiers) [
  | none ↦ some t
  | some best ↦ some (if ltb (total_bps best) (total_bps t) then t else best)
]

first_tier : List FeeTier → Option FeeTier
first_tier [] = none
first_tier (t ∷ tiers) = some t

pub tier_for : List FeeTier → Option ℕ → Option FeeTier
tier_for tiers none = dearest tiers
tier_for tiers (some market_cap) = elim (find_tier market_cap (reverse tiers)) [
  | none ↦ first_tier tiers
  | some t ↦ some t
]

abbrev dear_tier : FeeTier
dear_tier = record { market_cap_lamports = 0; lp_bps = 20; protocol_bps = 5; creator_bps = 100 }

pub or_dear : Option FeeTier → FeeTier
or_dear none = dear_tier
or_dear (some t) = t

pub schedule_for : FeeTables → PumpFunAmm → Option FeeTier
schedule_for tables s =
    let schedules = schedules_of tables in
    let market_cap = pamm_market_cap_lamports s in
    let by_market_cap = tier_for (tiers_of tables) market_cap in
    if s.pamm_flags.non_canonical
    then some schedules.flat
    else if is_sol_like_quote s.quote_mint
    then by_market_cap
    else if s.quote_mint == usdc_mint
    then elim (schedules.stable_tiers) [
      | [] ↦ by_market_cap
      | t ∷ ts ↦ tier_for (t ∷ ts) market_cap
    ]
    else if total_bps schedules.exotic_flat == 0
    then some schedules.flat
    else some schedules.exotic_flat

pub with_creator_bps : FeeTier → ℕ → FeeTier
with_creator_bps t bps = record {
  market_cap_lamports = t.market_cap_lamports;
  lp_bps = t.lp_bps;
  protocol_bps = t.protocol_bps;
  creator_bps = bps;
}

pub pamm_fee_tier : FeeTables → PoolState → FeeTier
pamm_fee_tier tables (PoolState.pump_fun_amm s) =
    let fees = or_dear (schedule_for tables s) in
    if (schedules_of tables).creator_fee_configurable && ltb 0 s.pamm_flags.creator_fee_bps
    then with_creator_bps fees s.pamm_flags.creator_fee_bps
    else fees
pamm_fee_tier tables _ = dear_tier

pub pamm_total_fee_bps : FeeTables → PoolState → ℕ
pamm_total_fee_bps tables state = total_bps (pamm_fee_tier tables state)
