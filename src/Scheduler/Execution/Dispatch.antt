-- ===== src/Scheduler/Execution/Dispatch.antt =====
-- Starting an execution: `execute_quantum_task`, `execute_compressed_task`,
-- `dispatch_task_execution` and `perform_round_robin_check` of contracts/scheduler/src/execution.rs.
use xcron_protocol.Prelude.{
  ℕ, ◌+◌, ◌*◌, ◌/◌, ◌%◌, ◌^◌, ◌++◌, Bool, true, false, not, ◌||◌, Option, none, some, leb, ltb,
  ◌==◌, if◌then◌else◌, lookup, insert, read, read_or, be_bytes,
}
use xcron_protocol.Framework.{
  Result, ok, ◌>>=◌, ◌>>◌, guard, or_abort, Address, Hash, Ctx, SetMapper, VecMapper, non_payable,
  u64, is_zero, emit, call_target, decode_error, invalid_quantum_seal, task_not_pending,
  missing_quantum_secret, quantum_seal_broken, locked_task, wrong_round_robin_keeper,
  already_executed, xsc_not_configured, invalid_state_proof, insufficient_gas,
}
use xcron_protocol.Common.{
  Buffer, Task, TaskStatus, Trigger, time_once, time_recurring, state_driven, event_driven,
  quantum_sealed_hash, QuantumTaskState, callback_gas_reserve, round_robin_grace_seconds,
}
use xcron_protocol.Scheduler.Environment.{Env, seal, first_bool}
use xcron_protocol.Scheduler.State.{State, require_not_paused, require_registered_keeper}
use xcron_protocol.Scheduler.Scheduling.{is_pending}
use xcron_protocol.Scheduler.Validation.{
  require_task_ripe_quantum, require_safe_target, require_xwap_market_safe,
}

-- The moment from which the assigned keeper has its exclusive window.
unfoldable pub ripe_time_ms : Ctx → Trigger → ℕ
ripe_time_ms c (time_once target_time) = target_time
ripe_time_ms c (time_recurring start interval remaining) = start
ripe_time_ms c (state_driven oracle endpoint args comparator threshold) = u64 (c.timestamp * 1000)
ripe_time_ms c (event_driven emitter topic) = u64 (c.timestamp * 1000)
ripe_time_ms c (quantum_sealed_hash expected) = u64 (c.timestamp * 1000)

-- A task with a quantum seal needs the preimage of its hash, 32 bytes long.
unfoldable pub require_secret : Env → Option Hash → Trigger → Result (Unit {0})
require_secret env secret (quantum_sealed_hash expected) = do
  preimage ← or_abort secret missing_quantum_secret
  guard (env.sha256 (be_bytes 32 preimage) == expected) quantum_seal_broken
require_secret env secret (time_once target_time) = ok tt
require_secret env secret (time_recurring start interval remaining) = ok tt
require_secret env secret (state_driven oracle endpoint args comparator threshold) = ok tt
require_secret env secret (event_driven emitter topic) = ok tt

abbrev pub is_for : Option Address → Address → Bool
is_for none keeper = true
is_for (some assigned) keeper = keeper == assigned

-- The gas that a dispatch must have left, in `u64`.
unfoldable pub min_gas_needed : Bool → Bool → ℕ → ℕ
min_gas_needed is_cross_shard same_shard_keeper max_gas =
    let overhead =
      if not is_cross_shard
      then 0
      else (if same_shard_keeper then u64 (max_gas * 15) / 100 else u64 (max_gas * 30) / 100) in
    let callback_gas =
      if is_cross_shard then callback_gas_reserve else callback_gas_reserve * 80 / 100 in
    u64 (max_gas + overhead + callback_gas + 10000000)

-- The index, from 1, that the seal, the time and the block's random seed select.
unfoldable pub assigned_index : Env → Ctx → Hash → ℕ → ℕ → ℕ
assigned_index env c hash ripe count =
    let digest = env.sha256 (be_bytes 32 hash ++ (be_bytes 8 ripe ++ be_bytes 48 c.random_seed)) in
    digest / 2 ^ 192 % count + 1

module _ {S V : Type 0} ⦃vecs : VecMapper V⦄ where
  unfoldable pub perform_round_robin_check :
      Env → Ctx → Task → Hash → Address → State S V → Result (Unit {0})
  perform_round_robin_check env c task hash keeper s =
      let count = vecs.vec_len s.keeper_list in
      let ripe = ripe_time_ms c task.trigger in
      if ltb 1 count
      then (do
        assigned ←
            or_abort (vecs.get_item (assigned_index env c hash ripe count) s.keeper_list)
              decode_error
        guard
            (keeper == assigned
              || leb (u64 (ripe + round_robin_grace_seconds * 1000)) (u64 (c.timestamp * 1000)))
            wrong_round_robin_keeper)
      else ok tt

module _ {S V : Type 0} ⦃sets : SetMapper S⦄ where
  abbrev pub require_market : Env → Task → State S V → Result (Unit {0})
  require_market env task s =
      if task.require_xwap_safe then require_xwap_market_safe env s else ok tt

  -- The task is marked as executing; its target is called, unless an enclave executes it.
  abbrev pub start_task : Ctx → Hash → Task → QuantumTaskState → State S V → State S V
  start_task c hash task state s =
      let executing = record state { status = TaskStatus.executing; executing_at = c.timestamp } in
      record s {
        quantum_tasks = insert hash executing s.quantum_tasks;
        account =
            if task.confidential
            then s.account
            else emit (call_target task.target_contract hash task.max_gas) s.account;
      }

  abbrev pub gas_needed : Env → Ctx → Task → Address → State S V → ℕ
  gas_needed env c task keeper s =
      let target_shard = env.shard_of task.target_contract in
      min_gas_needed (not (target_shard == env.shard_of c.self_addr))
        (read keeper s.keeper_shard == target_shard) task.max_gas

  unfoldable pub dispatch_task_execution :
      Env → Ctx → Hash → Task → Address → QuantumTaskState → State S V → Result (State S V)
  dispatch_task_execution env c hash task keeper state s = do
    require_task_ripe_quantum env c task
    require_safe_target c task.target_contract task.target_endpoint s
    require_market env task s
    guard (leb (gas_needed env c task keeper s) c.gas_left) insufficient_gas
    ok (start_task c hash task state s)

  unfoldable pub execute_compressed_task :
      Env → Ctx → Task → Buffer → State S V → Result (State S V)
  execute_compressed_task env c task packed_proof s = do
    non_payable c
    require_not_paused s
    require_registered_keeper c.caller s
    let hash = seal env task
    guard (not (read_or false hash s.used_compressed_tasks)) already_executed
    xsc ← or_abort s.xsc_address decode_error
    guard (not (is_zero xsc)) xsc_not_configured
    raw_result ← env.verify_proof xsc hash packed_proof
    guard (first_bool env raw_result) invalid_state_proof
    dispatch_task_execution env c hash task c.caller
        (record {
          owner = task.owner;
          deposit = task.deposit;
          status = TaskStatus.pending;
          executing_at = 0;
        })
        s

module _ {S V : Type 0} ⦃sets : SetMapper S⦄ ⦃vecs : VecMapper V⦄ where
  -- The keeper of a confidential task is noted before the dispatch.
  abbrev pub assign_enclave : Task → Hash → Address → State S V → State S V
  assign_enclave task hash keeper s = record s {
    assigned_enclave_keeper =
        if task.confidential
        then insert hash keeper s.assigned_enclave_keeper
        else s.assigned_enclave_keeper;
  }

  unfoldable pub execute_quantum_task :
      Env → Ctx → Task → Option Hash → State S V → Result (State S V)
  execute_quantum_task env c task quantum_secret s = do
    non_payable c
    require_not_paused s
    require_registered_keeper c.caller s
    let hash = seal env task
    state ← or_abort (lookup hash s.quantum_tasks) invalid_quantum_seal
    guard (is_pending state.status) task_not_pending
    require_secret env quantum_secret task.trigger
    guard (is_for task.assigned_keeper c.caller) locked_task
    perform_round_robin_check env c task hash c.caller s
    dispatch_task_execution env c hash task c.caller state (assign_enclave task hash c.caller s)
