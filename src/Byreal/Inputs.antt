-- ===== src/Byreal/Inputs.antt =====
-- quote/byreal_fee.rs: the accounts that the fee reads, and the inputs published for the quotes. A
-- concurrent map is a function, and each operation runs alone. The address of a price feed is derived by a
-- library, a parameter here; a pool state of another venue is `none`.
mod Tests
pub mod Laws
use flow_trades_solana.Base.{
  ℕ, ◌+◌, Bool, true, false, not, Option, none, some, List, [], ◌∷◌, ◌||◌, ltb, ◌==◌, if◌then◌else◌,
  ◌>>=◌, ◌>>◌, refuse_if, length, get_elem?,
}
use flow_trades_solana.Base.Bytes.{Pubkey, slice, number_at, key_at, signed, equal_bytes}
use flow_trades_solana.Base.Int.{ℤ, pos}
use flow_trades_solana.Registry.{push_missing}
use flow_trades_solana.Byreal.{ByrealFee, is_dynamic}
use flow_trades_solana.Byreal.Dynamic.{PythPrice, DynInputs, dynamic_fee_rate}

abbrev pub pyth_receiver_prog_id : Pubkey
pyth_receiver_prog_id = 0xcb7fabb52f7a648bb5b317d9a018b9057cb024774fafe01e6c4df98cc385881

-- `bytes` is the field `data`.
pub record Account : Type 0 where
  pub owner : Pubkey
  pub bytes : List ℕ

-- `ByrealFee::parse`.
pub parse : (sponsored_price_account : List ℕ → Pubkey) → List ℕ → Option ByrealFee
parse sponsored_price_account d = do
  refuse_if (ltb (length d) 1_176)
  rate ← number_at d 393 4
  flags ← number_at d 1_096 1
  decay_init_rate ← number_at d 1_097 1
  decay_decrease_rate ← number_at d 1_098 1
  decay_interval ← number_at d 1_099 1
  open_time ← number_at d 1_080 8
  status ← number_at d 389 1
  fee_on ← number_at d 390 1
  buffer ← number_at d 1_100 2
  slippage_base ← number_at d 1_102 1
  slippage_threshold ← number_at d 1_103 1
  imbalance_base ← number_at d 1_104 1
  imbalance_x ← number_at d 1_105 1
  decimals_0 ← number_at d 233 1
  decimals_1 ← number_at d 234 1
  feed_id_0 ← slice d 1_112 1_144
  feed_id_1 ← slice d 1_144 1_176
  let f : ByrealFee = record {
    pool_trade_fee_rate = rate;
    flags = flags;
    decay_init_rate = decay_init_rate;
    decay_decrease_rate = decay_decrease_rate;
    decay_interval = decay_interval;
    open_time = open_time;
    status = status;
    fee_on = fee_on;
    arbitrage_fee_buffer_ppm = buffer;
    slippage_fee_base = slippage_base;
    slippage_fee_threshold = slippage_threshold;
    imbalance_fee_base = imbalance_base;
    imbalance_fee_x = imbalance_x;
    decimals_0 = decimals_0;
    decimals_1 = decimals_1;
    feed_id_0 = feed_id_0;
    feed_id_1 = feed_id_1;
    oracle_0 = 0;
    oracle_1 = 0;
  }
  let oracle_0 = sponsored_price_account feed_id_0
  let oracle_1 = sponsored_price_account feed_id_1
  some (if is_dynamic f then record f { oracle_0 = oracle_0; oracle_1 = oracle_1 } else f)

-- Where the message starts, by the verification level.
message_at : ℕ → Option ℕ
message_at level = if level == 0 then some 42 else if level == 1 then some 41 else none

pub parse_price_update : Account → (feed_id : List ℕ) → Option PythPrice
parse_price_update acct feed_id = do
  refuse_if (not (acct.owner == pyth_receiver_prog_id))
  level ← get_elem? acct.bytes 40
  o ← message_at level
  id ← slice acct.bytes o (o + 32)
  refuse_if (not (equal_bytes id feed_id))
  price ← number_at acct.bytes (o + 32) 8
  exponent ← number_at acct.bytes (o + 48) 4
  publish_time ← number_at acct.bytes (o + 52) 8
  some (record {
    price = signed 64 price;
    exponent = signed 32 exponent;
    publish_time = signed 64 publish_time;
  })

token_amount : Account → Option ℕ
token_amount acct = number_at acct.bytes 64 8

-- `PoolState::Byreal`, in the fields read here.
pub record ByrealPool : Type 0 where
  pub pool : Pubkey
  pub token_vault_a : Pubkey
  pub token_vault_b : Pubkey
  pub sqrt_price_x64 : ℕ
  pub fee : ByrealFee

pub dyn_input_keys : Option ByrealPool → Option (List Pubkey)
dyn_input_keys none = none
dyn_input_keys (some s) =
    if is_dynamic s.fee
    then some (s.token_vault_a ∷ s.token_vault_b ∷ s.fee.oracle_0 ∷ s.fee.oracle_1 ∷ [])
    else none

-- `DYN_INPUTS` and `ORACLE_POOLS`.
pub record Published : Type 0 where
  pub dyn_inputs : Pubkey → Option DynInputs
  pub oracle_pools : Pubkey → Option (List Pubkey)

pub pools_reading_oracle : Published → Pubkey → Option (List Pubkey)
pools_reading_oracle p account = p.oracle_pools account

account_at : List (Option Account) → ℕ → Option Account
account_at accounts i = get_elem? accounts i >>= λ a. a

pub parse_inputs : ByrealFee → List (Option Account) → Option DynInputs
parse_inputs fee accounts = do
  vault_0 ← account_at accounts 0 >>= token_amount
  vault_1 ← account_at accounts 1 >>= token_amount
  price_0 ← account_at accounts 2 >>= λ a. parse_price_update a fee.feed_id_0
  price_1 ← account_at accounts 3 >>= λ a. parse_price_update a fee.feed_id_1
  some (record { vault_0 = vault_0; vault_1 = vault_1; price_0 = price_0; price_1 = price_1 })

-- One turn of the loop over the two oracles.
register :
    Pubkey → (oracle : Pubkey) → (Pubkey → Option (List Pubkey)) → Pubkey → Option (List Pubkey)
register pool oracle pools key =
    let pushed = push_missing pool (pools oracle) in
    if key == oracle then some pushed else pools key

-- What a pool's parsed inputs, or their absence, do to the map.
put_inputs : Pubkey → Option DynInputs → (Pubkey → Option DynInputs) → Pubkey → Option DynInputs
put_inputs pool parsed inputs key = if key == pool then parsed else inputs key

pub publish_dyn_inputs : Option ByrealPool → List (Option Account) → Published → Bool × Published
publish_dyn_inputs none accounts p = (false, p)
publish_dyn_inputs (some s) accounts p =
    let parsed = parse_inputs s.fee accounts in
    let pools = register s.pool s.fee.oracle_1 (register s.pool s.fee.oracle_0 p.oracle_pools) in
    let after : Published = record {
      dyn_inputs = put_inputs s.pool parsed p.dyn_inputs;
      oracle_pools = pools;
    } in
    (elim parsed [ none ↦ false | some _ ↦ true ], after)

pub data SwapFee : Type 0 where
  base : SwapFee
  rate : ℕ → SwapFee
  unavailable : SwapFee

abbrev pub fee_of : Option ℕ → SwapFee
fee_of none = unavailable
fee_of (some r) = rate r

-- The clock is an argument.
pub swap_fee_ppm :
    Published
    → Option ByrealPool
    → (pool : Pubkey) → (zero_for_one : Bool) → (amount fee_base : ℕ) → (now : ℤ) → SwapFee
swap_fee_ppm p none pool zero_for_one amount fee_base now = base
swap_fee_ppm p (some s) pool zero_for_one amount fee_base now =
    let answer = (do
      inp ← p.dyn_inputs pool
      dynamic_fee_rate s.fee fee_base s.sqrt_price_x64 inp zero_for_one amount now) in
    if not (is_dynamic s.fee) then base else fee_of answer
