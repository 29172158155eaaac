-- ===== src/PoolType/Laws.antt =====
-- pool/types.rs: theorems on the names of pool types.
use Prim.Native.String.{String}
use text.Mathlib.Text
use text.Mathlib.TextEquality.{eq_iff}
use mathlib.Core.Option.{some-injective}
use flow_trades_solana.Base.{
  some, List, [], ◌∷◌, ◌≡◌, ◌↔◌, refl, sym, ap, ◌∙◌, All, arith, inl, inr, Bool-cases,
}
use flow_trades_solana.PoolType.{PoolType, as_str, from_str_opt, first_arm, arms}

from-as : (t : PoolType) → from_str_opt (as_str t) ≡ some t
unfolding from_str_opt as_str first_arm
from-as PoolType.unknown = refl
from-as PoolType.raydium_v4 = refl
from-as PoolType.raydium_cpmm = refl
from-as PoolType.raydium_cl = refl
from-as PoolType.raydium_lp = refl
from-as PoolType.pump_fun = refl
from-as PoolType.pump_fun_amm = refl
from-as PoolType.meteora = refl
from-as PoolType.meteora_dlmm = refl
from-as PoolType.meteora_damm = refl
from-as PoolType.meteora_dbc = refl
from-as PoolType.orca = refl
from-as PoolType.flux_beam = refl
from-as PoolType.flash_trade = refl
from-as PoolType.byreal = refl
from-as PoolType.defi_tuna_fusion = refl
from-as PoolType.defi_tuna_pools = refl
from-as PoolType.saros = refl
from-as PoolType.pancake_swap = refl
from-as PoolType.dooar = refl
from-as PoolType.pumpup = refl
from-as PoolType.pumpup_bonding = refl

first_arm_named :
    (s : String) (t : PoolType) (table : List (String × PoolType))
    → All (λ ((name, u) : String × PoolType). as_str u ≡ name) table
    → first_arm s table ≡ some t
    → s ≡ as_str t
unfolding first_arm
first_arm_named s t [] a h = ground arith
first_arm_named s t ((name, u) ∷ rest) (e, a) h = elim (Bool-cases (Text.◌==◌ s name)) [
  | inl same ↦
      let hu : some u ≡ some t = sym (rw same refl) ∙ h in
      let ut : u ≡ t = some-injective u t hu in (eq_iff s name).0 same ∙ sym e ∙ ap as_str ut
  | inr differ ↦ first_arm_named s t rest a (sym (rw differ refl) ∙ h)
]

arms_named : All (λ ((name, u) : String × PoolType). as_str u ≡ name) arms
unfolding as_str
arms_named = ground arith

-- A text is read as a pool type exactly when it is the name that is printed for that type.
pub from_str_opt-as_str : (s : String) (t : PoolType) → (from_str_opt s ≡ some t) ↔ (s ≡ as_str t)
unfolding from_str_opt
from_str_opt-as_str s t = (first_arm_named s t arms arms_named, λ e. ap from_str_opt e ∙ from-as t)
