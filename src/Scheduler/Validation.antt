-- ===== src/Scheduler/Validation.antt =====
-- The checks of contracts/scheduler/src/validation.rs, and of `scheduling.rs` on new tasks.
use xcron_protocol.Prelude.{
  ℕ, ◌+◌, ◌*◌, Bool, true, not, ◌&&◌, List, [], ◌∷◌, leb, ltb, ◌==◌, if◌then◌else◌, codes,
  is_one_of, insert, read, read_or,
}
use xcron_protocol.Framework.{
  Result, ok, ◌>>=◌, ◌>>◌, guard, or_abort, Address, Ctx, SetMapper, contains, len, u64, u32,
  is_zero, decode_error, target_self, target_registry, target_rewards, target_blacklisted,
  dangerous_endpoint, deposit_exceeds_cap, deposit_below_min, task_expired, task_not_ripe,
  oracle_condition_not_met, max_gas_too_high, max_gas_too_low, ttl_exceeds_5_years,
  created_at_malformed, target_time_too_large, start_time_too_large, too_many_active_tasks,
  too_many_tasks_this_round, market_unsafe,
}
use xcron_protocol.Common.{
  Buffer, Task, Trigger, time_once, time_recurring, state_driven, event_driven, quantum_sealed_hash,
  Comparator, gt, lt, eq, gte, lte,
}
use xcron_protocol.Scheduler.Environment.{Env, big_from_bytes, first_bool}
use xcron_protocol.Scheduler.State.{State, get_timestamp_ms, set_of}

-- The endpoints of the system and of token transfers that no task may call.
abbrev pub dangerous_endpoints : List Buffer
dangerous_endpoints =
    codes "upgradeContract"
    ∷ codes "changeOwner"
    ∷ codes "ChangeOwnerAddress"
    ∷ codes "setOwner"
    ∷ codes "upgradeFromSource"
    ∷ codes "claimDeveloperRewards"
    ∷ codes "ESDTTransfer"
    ∷ codes "ESDTNFTTransfer"
    ∷ codes "MultiESDTNFTTransfer"
    ∷ []

unfoldable pub is_dangerous : Buffer → Bool
is_dangerous endpoint = is_one_of endpoint dangerous_endpoints

unfoldable pub compare_with : Comparator → ℕ → ℕ → Bool
compare_with gt value threshold = ltb threshold value
compare_with lt value threshold = ltb value threshold
compare_with eq value threshold = value == threshold
compare_with gte value threshold = leb threshold value
compare_with lte value threshold = leb value threshold

-- An oracle that returns nothing counts as 0.
unfoldable pub oracle_value : List Buffer → ℕ
oracle_value [] = 0
oracle_value (r ∷ rs) = big_from_bytes 0 r

-- The trigger's condition, at a time in milliseconds.
unfoldable pub require_trigger_met : Env → ℕ → Trigger → Result (Unit {0})
require_trigger_met env now (time_once target_time) = guard (leb target_time now) task_not_ripe
require_trigger_met env now (time_recurring start interval remaining) =
    guard (leb start now) task_not_ripe
require_trigger_met env now (state_driven oracle endpoint args comparator threshold) = do
  raw_result ← env.query_oracle oracle endpoint
  guard (compare_with comparator (oracle_value raw_result) threshold) oracle_condition_not_met
require_trigger_met env now (event_driven emitter topic) = ok tt
require_trigger_met env now (quantum_sealed_hash expected) = ok tt

unfoldable pub is_expired : ℕ → Task → Bool
is_expired now task =
    ltb 0 task.ttl_seconds && ltb (u64 (task.created_at + u64 (task.ttl_seconds * 1000))) now

unfoldable pub require_task_ripe_quantum : Env → Ctx → Task → Result (Unit {0})
unfolding is_expired
require_task_ripe_quantum env c task = do
  let now = get_timestamp_ms c.timestamp
  guard (not (is_expired now task)) task_expired
  require_trigger_met env now task.trigger

unfoldable pub require_trigger_bounds : Trigger → Result (Unit {0})
require_trigger_bounds (time_once target_time) =
    guard (leb target_time 200000000000000) target_time_too_large
require_trigger_bounds (time_recurring start interval remaining) =
    guard (leb start 200000000000000) start_time_too_large
require_trigger_bounds (state_driven oracle endpoint args comparator threshold) = ok tt
require_trigger_bounds (event_driven emitter topic) = ok tt
require_trigger_bounds (quantum_sealed_hash expected) = ok tt

module _ {S V : Type 0} where
  unfoldable pub require_deposit_within_cap : ℕ → State S V → Result (Unit {0})
  require_deposit_within_cap deposit s =
      guard (if ltb 0 s.max_exec_value_egld then leb deposit s.max_exec_value_egld else true)
        deposit_exceeds_cap

  unfoldable pub validate_task_parameters : Task → ℕ → State S V → Result (Unit {0})
  unfolding require_deposit_within_cap
  validate_task_parameters task deposit s = do
    guard (leb s.min_deposit deposit) deposit_below_min
    require_deposit_within_cap deposit s
    guard (leb task.max_gas 400000000) max_gas_too_high
    guard (leb 5000000 task.max_gas) max_gas_too_low
    guard (leb task.ttl_seconds 157680000) ttl_exceeds_5_years
    guard (leb task.created_at 200000000000000) created_at_malformed
    require_trigger_bounds task.trigger

  unfoldable pub require_xwap_market_safe : Env → State S V → Result (Unit {0})
  require_xwap_market_safe env s = do
    xwap ← or_abort s.xwap_address decode_error
    if is_zero xwap then ok tt else (do
      raw_results ← env.is_safe_to_execute xwap
      guard (first_bool env raw_results) market_unsafe)

module _ {S V : Type 0} ⦃sets : SetMapper S⦄ where
  unfoldable pub require_safe_target : Ctx → Address → Buffer → State S V → Result (Unit {0})
  require_safe_target c target endpoint s = do
    guard (not (target == c.self_addr)) target_self
    registry ← or_abort s.keeper_registry_addr decode_error
    guard (not (target == registry)) target_registry
    rewards ← or_abort s.rewards_addr decode_error
    guard (not (target == rewards)) target_rewards
    guard (not (contains target s.target_blacklist)) target_blacklisted
    guard (not (is_dangerous endpoint)) dangerous_endpoint

  abbrev pub round_count : Address → ℕ → State S V → ℕ
  round_count caller round s = read round (read_or [] caller s.tasks_per_round)

  unfoldable pub enforce_rate_limits : Ctx → Address → State S V → Result (State S V)
  enforce_rate_limits c caller s = do
    guard (ltb (len (set_of caller s.owner_tasks)) 100) too_many_active_tasks
    let count = round_count caller c.round s
    guard (if ltb 0 s.max_tasks_per_round then ltb count s.max_tasks_per_round else true)
        too_many_tasks_this_round
    ok (record s {
      tasks_per_round =
          insert caller (insert c.round (u32 (count + 1)) (read_or [] caller s.tasks_per_round))
            s.tasks_per_round;
    })
