-- ===== src/Tests/Tasks.antt =====
-- The theorems on tasks at concrete states.
use xcron_protocol.Prelude.{◌+◌, ◌≡◌, refl, true, false, none, some, List, [], ◌∷◌, arith}
use xcron_protocol.Framework.{Ctx, after, direct_egld, Returns, is_ok, ◌>>=◌}
use xcron_protocol.Common.{QuantumTaskState, TaskStatus, state_driven, Comparator, Task}
use xcron_protocol.Scheduler.Calls.{Call, run}
use xcron_protocol.Scheduler.Funds.Books.{Covers}
use xcron_protocol.Scheduler.Funds.Runs.{run-Covers}
use xcron_protocol.Scheduler.Execution.{
  finalize_successful_execution, min_gas_needed, calculate_reward, execution_callback,
  settle_xse_task, require_zk_proof, rescue_stuck_xse_task, execute_quantum_task,
  execute_compressed_task, perform_round_robin_check, dispatch_task_execution, require_secret,
}
use xcron_protocol.Scheduler.State.{get_timestamp_ms}
use xcron_protocol.Scheduler.Validation.{
  require_safe_target, is_dangerous, require_task_ripe_quantum, require_trigger_met, is_expired,
}
use xcron_protocol.Scheduler.Lifecycle.Ending.{
  Pays, execution_callback-Pays, execution_callback_refunds, settled, rescued, end_task_once,
}
use xcron_protocol.Scheduler.Lifecycle.Starting.{MayStart, execute_quantum_task-MayStart}
use xcron_protocol.Scheduler.Lifecycle.Compressed.{Repeatable, compressed_failure_repeats}
use xcron_protocol.Tests.Models.{bit_set, dict_vec, env, account_of, by_owner, as_caller}
use xcron_protocol.Tests.Schedule.{Scheduler, ready, job, entry, holding, with_key}

holding-Covers : (status : TaskStatus) → Covers 0 (holding status)
holding-Covers status = ground arith

with_key-Covers : Covers 0 with_key
with_key-Covers = ground arith

-- Keeper 3 executes the task and its target's call succeeds; then the key 7 schedules another.
abbrev history : List (Ctx × Call)
history =
    (as_caller 3, Call.execute job none)
    ∷ (as_caller 3, Call.callback 1 6 3 true)
    ∷ (as_caller 7, Call.schedule job (some 300))
    ∷ []

run-Covers_example : Covers 0 (run env history (holding TaskStatus.pending))
run-Covers_example =
    run-Covers env history (holding TaskStatus.pending) (tt, (tt, (tt, tt)))
      (holding-Covers TaskStatus.pending)

-- The key 7 spends 300 of the 900 that it has left.
abbrev spending : List (Ctx × Call)
spending = (as_caller 7, Call.schedule job (some 300)) ∷ []

abbrev executing : Scheduler
executing = holding TaskStatus.executing

execution_callback-Pays_example :
    (500 + 20 + 480 ≡ 1000)
    × Returns (Pays 3 4 500 480 20 executing) (execution_callback 1 6 3 true executing)
unfolding calculate_reward
execution_callback-Pays_example =
    execution_callback-Pays 1 6 3 (entry TaskStatus.executing) executing
      (holding-Covers TaskStatus.executing) refl (ground arith)

execution_callback_refunds_example :
    Returns (Pays 3 4 0 980 20 executing) (execution_callback 1 6 3 false executing)
execution_callback_refunds_example =
    execution_callback_refunds 1 6 3 (entry TaskStatus.executing) executing
      (holding-Covers TaskStatus.executing) refl (ground arith)

-- The assigned enclave keeper 3 settles the task, and then nobody can rescue it.
abbrev enclave : Scheduler
enclave = record executing { assigned_enclave_keeper = (1, 3) ∷ [] }

end_task_once_example :
    let s' = after enclave (settle_xse_task env (as_caller 3) 1 [] enclave) in
    is_ok (rescue_stuck_xse_task by_owner 1 s') ≡ false
unfolding settle_xse_task require_zk_proof finalize_successful_execution calculate_reward
    direct_egld bit_set
end_task_once_example =
    end_task_once (settled env (as_caller 3) []) (rescued by_owner) 1 enclave
      (after enclave (settle_xse_task env (as_caller 3) 1 [] enclave)) refl

execute_quantum_task-MayStart_example :
    (t : QuantumTaskState) × MayStart env (as_caller 3) job none t (holding TaskStatus.pending)
unfolding bit_set dict_vec execute_quantum_task require_secret perform_round_robin_check
    dispatch_task_execution require_task_ripe_quantum is_expired require_trigger_met
    get_timestamp_ms require_safe_target is_dangerous min_gas_needed
execute_quantum_task-MayStart_example =
    execute_quantum_task-MayStart env (as_caller 3) job none (holding TaskStatus.pending) refl

-- Two keepers are listed, and the task waits for an oracle.
abbrev two_keepers : Scheduler
two_keepers = record ready { keeper_list = (2, (1, 3) ∷ (2, 5) ∷ []) }

abbrev oracle_job : Task
oracle_job = record job { trigger = state_driven 11 [] [] Comparator.gt 5 }

abbrev funded : Scheduler
funded = record ready { account = account_of 1000 }

compressed_failure_repeats_example :
    Returns
      (Repeatable env (as_caller 3) job [] 980 funded)
      (execute_compressed_task env (as_caller 3) job [] funded >>= execution_callback 1 6 3 false)
unfolding execute_compressed_task dispatch_task_execution require_task_ripe_quantum is_expired
    require_trigger_met get_timestamp_ms require_safe_target is_dangerous min_gas_needed bit_set
compressed_failure_repeats_example =
    compressed_failure_repeats env (as_caller 3) job [] funded refl (ground arith) (ground arith)

abbrev secret_job : Task
secret_job = record job { confidential = true }
