-- ===== src/Xwap/State.antt =====
-- contracts/xwap/src/storage.rs, `init` and `upgrade` of lib.rs, and config.rs.
use xcron_protocol.Prelude.{ℕ, Bool, ◌&&◌, Option, some, leb, ltb, ◌==◌, Dict}
use xcron_protocol.Framework.{
  Result, ok, ◌>>=◌, ◌>>◌, guard, or_abort, Address, Ctx, SetMapper, insert_item, swap_remove,
  decode_error, not_oracle_owner, threshold_out_of_range, min_not_below_max, alpha_above_1,
  boost_too_high, freshness_out_of_range, consensus_out_of_range,
}

pub record KeeperReport : Type 0 where
  pub price : ℕ
  pub block : ℕ

pub record XwapSignals : Type 0 where
  pub gate_open : Bool
  pub consensus_ok : Bool
  pub freshness_ok : Bool
  pub stability_permille : ℕ
  pub safe : Bool

pub record State (S : Type 0) : Type 0 where
  pub ewma_reserve_a : ℕ
  pub ewma_reserve_b : ℕ
  pub xwap_price : ℕ
  pub prev_xwap_price : ℕ
  pub alpha_x1000 : ℕ
  pub price_history : Dict ℕ
  pub price_history_idx : ℕ
  pub update_count : ℕ
  pub keeper_report : Dict KeeperReport
  pub registered_keepers : S
  pub gate_threshold_permille : ℕ
  pub alpha_min_x1000 : ℕ
  pub alpha_max_x1000 : ℕ
  pub trend_boost_x1000 : ℕ
  pub gate_boost_x1000 : ℕ
  pub freshness_blocks : ℕ
  pub consensus_min_permille : ℕ
  pub pool_address : Option Address
  pub owner_address : Option Address

module _ {S : Type 0} where
  unfoldable pub init : Ctx → Address → State S → State S
  init c pool s = record s {
    owner_address = some c.caller;
    pool_address = some pool;
    gate_threshold_permille = 100;
    alpha_min_x1000 = 50;
    alpha_max_x1000 = 700;
    trend_boost_x1000 = 250;
    gate_boost_x1000 = 250;
    freshness_blocks = 2;
    consensus_min_permille = 800;
    ewma_reserve_a = 0;
    ewma_reserve_b = 0;
    xwap_price = 0;
    prev_xwap_price = 0;
    alpha_x1000 = 50;
    price_history_idx = 0;
    update_count = 0;
  }

  unfoldable pub upgrade : State S → State S
  upgrade s = record s { update_count = s.update_count }

  -- The owner that the contract itself has stored.
  abbrev require_stored_owner : Ctx → State S → Result (Unit {0})
  require_stored_owner c s = do
    owner ← or_abort s.owner_address decode_error
    guard (c.caller == owner) not_oracle_owner

  unfoldable pub set_gate_threshold : Ctx → ℕ → State S → Result (State S)
  set_gate_threshold c permille s = do
    require_stored_owner c s
    guard (ltb 0 permille && ltb permille 1000) threshold_out_of_range
    ok (record s { gate_threshold_permille = permille })

  unfoldable pub set_alpha_bounds : Ctx → ℕ → ℕ → State S → Result (State S)
  set_alpha_bounds c min_x1000 max_x1000 s = do
    require_stored_owner c s
    guard (ltb min_x1000 max_x1000) min_not_below_max
    guard (leb max_x1000 1000) alpha_above_1
    ok (record s { alpha_min_x1000 = min_x1000; alpha_max_x1000 = max_x1000 })

  unfoldable pub set_trend_boost : Ctx → ℕ → State S → Result (State S)
  set_trend_boost c boost_x1000 s = do
    require_stored_owner c s
    guard (leb boost_x1000 500) boost_too_high
    ok (record s { trend_boost_x1000 = boost_x1000 })

  unfoldable pub set_gate_boost : Ctx → ℕ → State S → Result (State S)
  set_gate_boost c boost_x1000 s = do
    require_stored_owner c s
    guard (leb boost_x1000 500) boost_too_high
    ok (record s { gate_boost_x1000 = boost_x1000 })

  unfoldable pub set_freshness_blocks : Ctx → ℕ → State S → Result (State S)
  set_freshness_blocks c blocks s = do
    require_stored_owner c s
    guard (ltb 0 blocks && leb blocks 20) freshness_out_of_range
    ok (record s { freshness_blocks = blocks })

  unfoldable pub set_consensus_min : Ctx → ℕ → State S → Result (State S)
  set_consensus_min c permille s = do
    require_stored_owner c s
    guard (leb 500 permille && leb permille 1000) consensus_out_of_range
    ok (record s { consensus_min_permille = permille })

  unfoldable pub set_pool_address : Ctx → Address → State S → Result (State S)
  set_pool_address c pool s = do
    require_stored_owner c s
    ok (record s { pool_address = some pool })

  module _ ⦃sets : SetMapper S⦄ where
    unfoldable pub register_keeper : Ctx → Address → State S → Result (State S)
    register_keeper c keeper s = do
      require_stored_owner c s
      ok (record s { registered_keepers = insert_item keeper s.registered_keepers })

    unfoldable pub remove_keeper : Ctx → Address → State S → Result (State S)
    remove_keeper c keeper s = do
      require_stored_owner c s
      ok (record s { registered_keepers = swap_remove keeper s.registered_keepers })
