-- ===== src/Scheduler/Execution/Settlement.antt =====
-- Settling an execution: `execution_callback`, `finalize_successful_execution`,
-- `finalize_failed_execution`, `calculate_reward`, `settle_xse_task` and `rescue_stuck_xse_task` of
-- contracts/scheduler/src/execution.rs.
use xcron_protocol.Prelude.{
  ℕ, ◌+◌, ◌-◌, Bool, true, false, ◌&&◌, ◌||◌, leb, ltb, ◌==◌, if◌then◌else◌, lookup, insert, erase,
  read,
}
use xcron_protocol.Framework.{
  Result, ok, ◌>>=◌, ◌>>◌, guard, or_abort, Address, Hash, Ctx, SetMapper, insert_item, non_payable,
  is_zero, u64, decode_error, unauthorized_settler, not_in_execution_state, invalid_zk_proof,
  task_not_found, not_executing, not_stuck_yet, only_owner_can_rescue,
}
use xcron_protocol.Common.{Buffer, TaskStatus, max_target_failures}
use xcron_protocol.Scheduler.Environment.{Env, first_bool}
use xcron_protocol.Scheduler.State.{
  State, require_not_paused, require_registered_keeper, pay, forward_protocol_fee,
  forward_keeper_result, remove_from,
}
use xcron_protocol.Scheduler.Scheduling.{fee_of}

abbrev pub is_executing : TaskStatus → Bool
is_executing TaskStatus.executing = true
is_executing _ = false

-- `calculate_reward`: what the fee leaves of the deposit, up to the cap, which 0 turns off.
unfoldable pub calculate_reward : ℕ → ℕ → ℕ → ℕ
calculate_reward deposit fee_bps max_reward =
    let fee = fee_of deposit fee_bps in
    let uncapped = if ltb fee deposit then deposit - fee else 0 in
    if ltb 0 max_reward && ltb max_reward uncapped then max_reward else uncapped

module _ {S V : Type 0} ⦃sets : SetMapper S⦄ where
  -- The record of a settled task goes, with the keeper that an enclave task was assigned to.
  abbrev pub close_task : Hash → Address → State S V → State S V
  close_task hash owner s = record s {
    quantum_tasks = erase hash s.quantum_tasks;
    owner_tasks = remove_from owner hash s.owner_tasks;
    assigned_enclave_keeper = erase hash s.assigned_enclave_keeper;
  }

  unfoldable pub finalize_successful_execution :
      Hash → Address → Address → ℕ → Address → State S V → Result (State S V)
  finalize_successful_execution hash target keeper deposit owner s = do
    let s1 = close_task hash owner s
    let s2 = record s1 {
      used_compressed_tasks = insert hash true s1.used_compressed_tasks;
      total_successful_execs = u64 (s1.total_successful_execs + 1);
      target_failure_count =
          if is_zero target
          then s1.target_failure_count
          else insert target 0 s1.target_failure_count;
    }
    let reward = calculate_reward deposit s.protocol_fee_bps s.max_reward_per_exec
    let fee = fee_of deposit s.protocol_fee_bps
    let spent = reward + fee
    rewarded ← pay keeper reward s2
    refunded ← if ltb spent deposit then pay owner (deposit - spent) rewarded else ok rewarded
    ok (forward_keeper_result keeper true (forward_protocol_fee fee refunded))

  unfoldable pub finalize_failed_execution :
      Hash → Address → Address → ℕ → Address → State S V → Result (State S V)
  finalize_failed_execution hash target keeper deposit owner s = do
    let s1 = close_task hash owner s
    let failures = u64 (read target s.target_failure_count + 1)
    let s2 = record s1 {
      total_failed_execs = u64 (s1.total_failed_execs + 1);
      target_failure_count = insert target failures s1.target_failure_count;
      target_blacklist =
          if leb max_target_failures failures
          then insert_item target s1.target_blacklist
          else s1.target_blacklist;
    }
    let fee = fee_of deposit s.protocol_fee_bps
    refunded ← if ltb fee deposit then pay owner (deposit - fee) s2 else ok s2
    ok (forward_keeper_result keeper false (forward_protocol_fee fee refunded))

  -- The callback of the call that a dispatch registered; `succeeded` is how that call ended.
  unfoldable pub execution_callback :
      Hash → Address → Address → Bool → State S V → Result (State S V)
  execution_callback hash target keeper succeeded s = do
    task ← or_abort (lookup hash s.quantum_tasks) decode_error
    if succeeded
        then finalize_successful_execution hash target keeper task.deposit task.owner s
        else finalize_failed_execution hash target keeper task.deposit task.owner s

  -- A zero address of the verifier turns the check of the proof off.
  unfoldable pub require_zk_proof : Env → Hash → Buffer → State S V → Result (Unit {0})
  require_zk_proof env hash zk_proof s = do
    verifier ← or_abort s.zk_verifier_addr decode_error
    if is_zero verifier then ok tt else (do
      raw_result ← env.verify_zk_proof verifier hash zk_proof
      guard (first_bool env raw_result) invalid_zk_proof)

  unfoldable pub settle_xse_task : Env → Ctx → Hash → Buffer → State S V → Result (State S V)
  settle_xse_task env c hash zk_proof s = do
    non_payable c
    require_not_paused s
    require_registered_keeper c.caller s
    assigned ← or_abort (lookup hash s.assigned_enclave_keeper) decode_error
    guard (c.caller == assigned) unauthorized_settler
    task ← or_abort (lookup hash s.quantum_tasks) decode_error
    guard (is_executing task.status) not_in_execution_state
    require_zk_proof env hash zk_proof s
    finalize_successful_execution hash 0 c.caller task.deposit task.owner s

  unfoldable pub rescue_stuck_xse_task : Ctx → Hash → State S V → Result (State S V)
  rescue_stuck_xse_task c hash s = do
    non_payable c
    require_not_paused s
    task ← or_abort (lookup hash s.quantum_tasks) task_not_found
    guard (is_executing task.status) not_executing
    guard (leb (u64 (task.executing_at + 86400)) c.timestamp) not_stuck_yet
    guard (c.caller == task.owner || c.caller == c.owner) only_owner_can_rescue
    assigned ← or_abort (lookup hash s.assigned_enclave_keeper) decode_error
    let reported = if is_zero assigned then s else forward_keeper_result assigned false s
    pay task.owner task.deposit (close_task hash task.owner reported)
