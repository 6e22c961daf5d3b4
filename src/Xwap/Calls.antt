-- ===== src/Xwap/Calls.antt =====
-- Every endpoint of the oracle, and sequences of transactions.
use xcron_protocol.Prelude.{ℕ, List, [], ◌∷◌}
use xcron_protocol.Framework.{Result, ok, after, Address, Ctx, SetMapper, SetItems}
use xcron_protocol.Xwap.State.{
  State, upgrade, set_gate_threshold, set_alpha_bounds, set_trend_boost, set_gate_boost,
  set_freshness_blocks, set_consensus_min, set_pool_address, register_keeper, remove_keeper,
}
use xcron_protocol.Xwap.Keepers.{report_price}
use xcron_protocol.Xwap.Oracle.{update_price}

pub data Call : Type 0 where
  update : (raw_reserve_a raw_reserve_b : ℕ) → Call
  report : (price : ℕ) → Call
  threshold_call trend_call gate_call freshness_call consensus_call : (value : ℕ) → Call
  bounds_call : (min_x1000 max_x1000 : ℕ) → Call
  register_call remove_call pool_call : (addr : Address) → Call
  upgrade_call : Call

module _ {S : Type 0} ⦃sets : SetMapper S⦄ ⦃its : SetItems S⦄ where
  unfoldable pub dispatch : Ctx → Call → State S → Result (State S)
  dispatch c (update raw_reserve_a raw_reserve_b) s = update_price c raw_reserve_a raw_reserve_b s
  dispatch c (report price) s = report_price c price s
  dispatch c (threshold_call value) s = set_gate_threshold c value s
  dispatch c (trend_call value) s = set_trend_boost c value s
  dispatch c (gate_call value) s = set_gate_boost c value s
  dispatch c (freshness_call value) s = set_freshness_blocks c value s
  dispatch c (consensus_call value) s = set_consensus_min c value s
  dispatch c (bounds_call min_x1000 max_x1000) s = set_alpha_bounds c min_x1000 max_x1000 s
  dispatch c (register_call addr) s = register_keeper c addr s
  dispatch c (remove_call addr) s = remove_keeper c addr s
  dispatch c (pool_call addr) s = set_pool_address c addr s
  dispatch c upgrade_call s = ok (upgrade s)

  unfoldable pub run : List (Ctx × Call) → State S → State S
  run [] s = s
  run ((c, call) ∷ calls) s = run calls (after s (dispatch c call s))
