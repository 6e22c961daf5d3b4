-- ===== src/Scheduler/Funds/Executions.antt =====
-- The funds of tasks that are executed, settled or rescued.
use xcron_protocol.Prelude.{
  ◌≡◌, Bool, Option, some, arith, lookup, Option-cases, inl, inr, Distinct-insert, total-insert,
}
use xcron_protocol.Framework.{Address, Hash, Ctx, SetMapper, VecMapper, Ensures, direct_egld}
use xcron_protocol.Common.{Buffer, Task, TaskStatus, QuantumTaskState}
use xcron_protocol.Scheduler.Environment.{Env, seal}
use xcron_protocol.Scheduler.State.{State}
use xcron_protocol.Scheduler.Execution.{
  execution_callback, settle_xse_task, rescue_stuck_xse_task, start_task, assign_enclave,
  dispatch_task_execution, execute_quantum_task,
}
use xcron_protocol.Scheduler.Funds.Books.{Covers, deposit_of}
use xcron_protocol.Scheduler.Funds.Tasks.{
  close_task-Covers, finalize_successful_execution-Covers, finalize_failed_execution-Covers,
}

module _ {S V : Type 0} ⦃sets : SetMapper S⦄ where
  pub execution_callback-Covers :
      (hash : Hash) (target keeper : Address) (succeeded : Bool) (s : State S V)
      → Covers 0 s
      → Ensures (Covers 0) (execution_callback hash target keeper succeeded s)
  unfolding execution_callback
  execution_callback-Covers hash target keeper succeeded s h =
      elim (Option-cases (lookup hash s.quantum_tasks)) [
        | inl e ↦ ground (arith, e)
        | inr (t, e) ↦ ground (
          arith,
          e,
          finalize_successful_execution-Covers hash target keeper t s e h,
          finalize_failed_execution-Covers hash target keeper t s e h,
        )
      ]

  pub settle_xse_task-Covers :
      (env : Env) (c : Ctx) (hash : Hash) (proof : Buffer) (s : State S V)
      → Covers 0 s
      → Ensures (Covers 0) (settle_xse_task env c hash proof s)
  unfolding settle_xse_task
  settle_xse_task-Covers env c hash proof s h = elim (Option-cases (lookup hash s.quantum_tasks)) [
    | inl e ↦ ground (arith, e)
    | inr (t, e) ↦ ground (arith, e, finalize_successful_execution-Covers hash 0 c.caller t s e h)
  ]

  pub rescue_stuck_xse_task-Covers :
      (c : Ctx) (hash : Hash) (s : State S V)
      → Covers 0 s
      → Ensures (Covers 0) (rescue_stuck_xse_task c hash s)
  unfolding rescue_stuck_xse_task direct_egld
  rescue_stuck_xse_task-Covers c hash s h = elim (Option-cases (lookup hash s.quantum_tasks)) [
    | inl e ↦ ground (arith, e)
    | inr (t, e) ↦ ground (arith, e, close_task-Covers hash t s e h)
  ]

  start_task-Covers :
      (c : Ctx) (hash : Hash) (task : Task) (t : QuantumTaskState) (s : State S V)
      → lookup hash s.quantum_tasks ≡ some t
      → Covers 0 s
      → Covers 0 (start_task c hash task t s)
  start_task-Covers c hash task t s e h =
      let executing = record t { status = TaskStatus.executing; executing_at = c.timestamp } in
      ground (
        arith,
        e,
        Distinct-insert hash executing s.quantum_tasks h.tasks_distinct,
        total-insert deposit_of hash executing s.quantum_tasks,
      )

module _ {S V : Type 0} ⦃sets : SetMapper S⦄ ⦃vecs : VecMapper V⦄ where
  assign_enclave-Covers :
      (task : Task) (hash : Hash) (keeper : Address) (s : State S V)
      → Covers 0 s
      → Covers 0 (assign_enclave task hash keeper s)
  assign_enclave-Covers task hash keeper s h = ground arith

  pub execute_quantum_task-Covers :
      (env : Env) (c : Ctx) (task : Task) (secret : Option Hash) (s : State S V)
      → Covers 0 s
      → Ensures (Covers 0) (execute_quantum_task env c task secret s)
  unfolding execute_quantum_task dispatch_task_execution
  execute_quantum_task-Covers env c task secret s h =
      let hash = seal env task in
      elim (Option-cases (lookup hash s.quantum_tasks)) [
        | inl e ↦ ground (arith, e)
        | inr (t, e) ↦
            let s1 = assign_enclave task hash c.caller s in
            ground (
              arith,
              e,
              start_task-Covers c hash task t s1 e (assign_enclave-Covers task hash c.caller s h),
            )
      ]
