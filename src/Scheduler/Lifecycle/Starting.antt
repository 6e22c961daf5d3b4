-- ===== src/Scheduler/Lifecycle/Starting.antt =====
-- What must hold before a keeper executes a task, and which keeper may.
use xcron_protocol.Prelude.{
  ◌+◌, ◌*◌, ◌^◌, ◌≤◌, ◌<◌, ◌≡◌, ◌≢◌, true, false, Option, none, some, List, arith, leb, ◌==◌, ◌||◌,
  lookup, Option-cases, inl, inr, refl, be_bytes,
}
use xcron_protocol.Framework.{
  ok, Address, Hash, Ctx, SetMapper, VecMapper, is_ok, contains, u64, Result-cases,
}
use xcron_protocol.Common.{
  Buffer, Task, QuantumTaskState, Trigger, time_once, time_recurring, state_driven, event_driven,
  quantum_sealed_hash,
}
use xcron_protocol.Scheduler.Environment.{Env, seal}
use xcron_protocol.Scheduler.State.{State, get_timestamp_ms}
use xcron_protocol.Scheduler.Validation.{
  is_dangerous, is_expired, require_trigger_met, require_task_ripe_quantum, require_safe_target,
  compare_with, oracle_value,
}
use xcron_protocol.Scheduler.Scheduling.{is_pending}
use xcron_protocol.Scheduler.Execution.{
  require_secret, is_for, gas_needed, perform_round_robin_check, assigned_index, ripe_time_ms,
  dispatch_task_execution, execute_quantum_task,
}

-- The condition of a trigger, as a keeper has to meet it.
abbrev pub IsMet : Env → Ctx → Option Hash → Trigger → Type 0
IsMet env c secret (time_once target_time) = target_time ≤ get_timestamp_ms c.timestamp
IsMet env c secret (time_recurring start interval remaining) = start ≤ get_timestamp_ms c.timestamp
IsMet env c secret (state_driven oracle endpoint args comparator threshold) =
    (results : List Buffer) × (env.query_oracle oracle endpoint ≡ ok results)
    × (compare_with comparator (oracle_value results) threshold ≡ true)
IsMet env c secret (event_driven emitter topic) = Unit
IsMet env c secret (quantum_sealed_hash expected) =
    (preimage : Hash) × (secret ≡ some preimage) × (env.sha256 (be_bytes 32 preimage) ≡ expected)

require_trigger_met-IsMet :
    (env : Env) (c : Ctx) (secret : Option Hash) (trigger : Trigger)
    → is_ok (require_secret env secret trigger) ≡ true
    → is_ok (require_trigger_met env (get_timestamp_ms c.timestamp) trigger) ≡ true
    → IsMet env c secret trigger
unfolding require_secret require_trigger_met
require_trigger_met-IsMet env c secret (time_once target_time) g h = ground arith
require_trigger_met-IsMet env c secret (time_recurring start interval remaining) g h = ground arith
require_trigger_met-IsMet env c secret (state_driven oracle endpoint args cmp threshold) g h =
    elim (Result-cases (env.query_oracle oracle endpoint)) [
      | inl (x, e) ↦ ground (arith, e)
      | inr (results, e) ↦ (results, e, ground (arith, e))
    ]
require_trigger_met-IsMet env c secret (event_driven emitter topic) g h = tt
require_trigger_met-IsMet env c none (quantum_sealed_hash expected) g h = ground arith
require_trigger_met-IsMet env c (some preimage) (quantum_sealed_hash expected) g h =
    (preimage, refl, ground arith)

module _ {S V : Type 0} ⦃sets : SetMapper S⦄ where
  -- What holds when a task with this entry is executed.
  pub record MayStart (env : Env) (c : Ctx) (task : Task) (secret : Option Hash)
      (t : QuantumTaskState) (s : State S V) : Type 0 where
    pub not_paused : s.paused ≡ false
    pub registered : contains c.caller s.whitelisted_keepers ≡ true
    pub entry : lookup (seal env task) s.quantum_tasks ≡ some t
    pub pending : is_pending t.status ≡ true
    pub assigned : is_for task.assigned_keeper c.caller ≡ true
    pub fresh : is_expired (get_timestamp_ms c.timestamp) task ≡ false
    pub met : IsMet env c secret task.trigger
    pub not_self : task.target_contract ≢ c.self_addr
    pub not_registry : s.keeper_registry_addr ≢ some task.target_contract
    pub not_rewards : s.rewards_addr ≢ some task.target_contract
    pub not_blacklisted : contains task.target_contract s.target_blacklist ≡ false
    pub harmless : is_dangerous task.target_endpoint ≡ false
    pub enough_gas : gas_needed env c task c.caller s ≤ c.gas_left

module _ {S V : Type 0} ⦃sets : SetMapper S⦄ ⦃vecs : VecMapper V⦄ where
  -- A task is executed only while the Scheduler is not paused, by a whitelisted keeper that it is not
  -- locked against, when its seal has a pending entry, it has not expired and its trigger is met, when
  -- its target is none of the Scheduler, the registry, the Rewards contract and the blacklisted ones,
  -- its endpoint is harmless, and the gas that is left suffices.
  pub execute_quantum_task-MayStart :
      (env : Env) (c : Ctx) (task : Task) (secret : Option Hash) (s : State S V)
      → is_ok (execute_quantum_task env c task secret s) ≡ true
      → (t : QuantumTaskState) × MayStart env c task secret t s
  unfolding execute_quantum_task dispatch_task_execution require_safe_target
      require_task_ripe_quantum
  execute_quantum_task-MayStart env c task secret s h =
      elim (Option-cases (lookup (seal env task) s.quantum_tasks)) [
        | inl e ↦ ground (arith, e)
        | inr (t, e) ↦ (
          t,
          record {
            not_paused = ground arith;
            registered = ground arith;
            entry = e;
            pending = ground (arith, e);
            assigned = ground (arith, e);
            fresh = ground (arith, e);
            met =
                require_trigger_met-IsMet env c secret task.trigger (ground (arith, e))
                  (ground (arith, e));
            not_self = ground (arith, e);
            not_registry = λ r. ground (arith, e, r);
            not_rewards = λ r. ground (arith, e, r);
            not_blacklisted = ground (arith, e);
            harmless = ground (arith, e);
            enough_gas = ground (arith, e);
          },
        )
      ]

-- The triggers that name the moment from which they can be executed.
abbrev pub HasStart : Trigger → Type 0
HasStart (time_once target_time) = Unit
HasStart (time_recurring start interval remaining) = Unit
HasStart _ = ⊥

-- A trigger without a start is ripe at the moment of the call.
ripe_time_ms-now :
    (c : Ctx) (trigger : Trigger)
    → c.timestamp < 2 ^ 50
    → ¬ HasStart trigger
    → ripe_time_ms c trigger ≡ c.timestamp * 1000
unfolding ripe_time_ms
ripe_time_ms-now c (time_once target_time) h endless = absurd (endless tt)
ripe_time_ms-now c (time_recurring start interval remaining) h endless = absurd (endless tt)
ripe_time_ms-now c (state_driven oracle endpoint args cmp threshold) h endless = omega arith
ripe_time_ms-now c (event_driven emitter topic) h endless = omega arith
ripe_time_ms-now c (quantum_sealed_hash expected) h endless = omega arith

module _ {S V : Type 0} ⦃vecs : VecMapper V⦄ where
  -- The check, where nothing wraps.
  perform_round_robin_check-ok :
      (env : Env) (c : Ctx) (task : Task) (hash : Hash) (keeper assigned : Address) (s : State S V)
      → let ripe = ripe_time_ms c task.trigger in
        let count = vecs.vec_len s.keeper_list in
        1 < count
        → vecs.get_item (assigned_index env c hash ripe count) s.keeper_list ≡ some assigned
        → c.timestamp < 2 ^ 50
        → ripe < 2 ^ 63
        → is_ok (perform_round_robin_check env c task hash keeper s)
          ≡ (keeper == assigned || leb (ripe + 30000) (c.timestamp * 1000))
  unfolding perform_round_robin_check
  perform_round_robin_check-ok env c task hash keeper assigned s many e time_lt ripe_lt =
      let ripe_id : u64 (ripe_time_ms c task.trigger + 30000)
          ≡ ripe_time_ms c task.trigger + 30000 =
        omega arith in
      let now_id : u64 (c.timestamp * 1000) ≡ c.timestamp * 1000 = omega arith in
      ground (arith, e, ripe_id, now_id)

  -- With two listed keepers or more, the keeper that the seal selects always passes the round-robin
  -- check; every other keeper passes it exactly when 30 seconds have passed since the task's start,
  -- for a trigger with a start, and never for one without, up to timestamps of 2 ^ 50.
  pub perform_round_robin_check_window :
      (env : Env) (c : Ctx) (task : Task) (hash : Hash) (keeper assigned : Address) (s : State S V)
      → let ripe = ripe_time_ms c task.trigger in
        let count = vecs.vec_len s.keeper_list in
        1 < count
        → vecs.get_item (assigned_index env c hash ripe count) s.keeper_list ≡ some assigned
        → c.timestamp < 2 ^ 50
        → ripe < 2 ^ 63
        → (is_ok (perform_round_robin_check env c task hash assigned s) ≡ true)
          × (keeper ≢ assigned
              → HasStart task.trigger
              → is_ok (perform_round_robin_check env c task hash keeper s)
                ≡ leb (ripe + 30000) (c.timestamp * 1000))
          × (keeper ≢ assigned
              → ¬ HasStart task.trigger
              → is_ok (perform_round_robin_check env c task hash keeper s) ≡ false)
  perform_round_robin_check_window env c task hash keeper assigned s many e time_lt ripe_lt =
      let check = λ (k : Address).
        perform_round_robin_check-ok env c task hash k assigned s many e time_lt ripe_lt in
      (
        ground (arith, check assigned),
        λ ne start. ground (arith, check keeper),
        λ ne endless. ground (arith, check keeper, ripe_time_ms-now c task.trigger time_lt endless),
      )
