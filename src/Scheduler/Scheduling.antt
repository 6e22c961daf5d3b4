-- ===== src/Scheduler/Scheduling.antt =====
-- Scheduling and cancelling: contracts/scheduler/src/scheduling.rs.
use xcron_protocol.Prelude.{
  ℕ, ◌-◌, ◌*◌, ◌/◌, ◌++◌, Bool, true, false, not, Option, leb, ltb, ◌==◌, is_none, if◌then◌else◌,
  lookup, insert, erase, be_bytes,
}
use xcron_protocol.Framework.{
  Result, ok, ◌>>=◌, ◌>>◌, guard, or_abort, Address, Hash, Ctx, SetMapper, receive, non_payable,
  is_zero, decode_error, clone_key_attached_egld, missing_requested_deposit, deposit_below_min,
  task_hash_exists, sovereign_task_exists, task_not_found, not_task_owner, only_pending_cancellable,
}
use xcron_protocol.Common.{Buffer, Task, TaskStatus, QuantumTaskState, bps_denominator}
use xcron_protocol.Scheduler.Environment.{Env, seal}
use xcron_protocol.Scheduler.State.{
  State, require_not_paused, pay, forward_protocol_fee, add_to, remove_from,
}
use xcron_protocol.Scheduler.Validation.{
  validate_task_parameters, enforce_rate_limits, require_deposit_within_cap,
}
use xcron_protocol.Scheduler.CloneKeys.{resolve_caller, charge_clone_key}

abbrev pub is_pending : TaskStatus → Bool
is_pending TaskStatus.pending = true
is_pending _ = false

abbrev pub new_task_state : Address → ℕ → QuantumTaskState
new_task_state owner deposit = record {
  owner = owner;
  deposit = deposit;
  status = TaskStatus.pending;
  executing_at = 0;
}

-- What cancelling costs: the protocol's share of the deposit.
abbrev pub fee_of : ℕ → ℕ → ℕ
fee_of deposit bps = deposit * bps / bps_denominator

-- The hash of a sovereign task: of the encrypted payload, the owner and, encoded into the same
-- buffer, the deposit.
abbrev pub sovereign_hash : Env → Buffer → Address → ℕ → Hash
sovereign_hash env payload owner deposit =
    env.sha256 (env.encode_number deposit (payload ++ be_bytes 32 owner))

module _ {S V : Type 0} where
  -- The deposit of a new task: a Clone-Key names it, and it is taken from the key's budget; anyone
  -- else attaches it.
  unfoldable pub take_deposit : Ctx → Option ℕ → State S V → Result (ℕ × State S V)
  take_deposit c requested s =
      if (resolve_caller c s).1
      then (do
        guard (c.egld == 0) clone_key_attached_egld
        req ← or_abort requested missing_requested_deposit
        charged ← charge_clone_key c c.caller req s
        ok (req, charged))
      else ok (c.egld, record s { account = receive c s.account })

module _ {S V : Type 0} ⦃sets : SetMapper S⦄ where
  -- `quantum_tasks(hash).set(state)` and `owner_tasks(owner).insert(hash)`
  abbrev pub store_task : Hash → Address → ℕ → State S V → State S V
  store_task hash owner deposit s = record s {
    quantum_tasks = insert hash (new_task_state owner deposit) s.quantum_tasks;
    owner_tasks = add_to owner hash s.owner_tasks;
  }

  unfoldable pub schedule_quantum_task :
      Env → Ctx → Task → Option ℕ → State S V → Result (Hash × State S V)
  schedule_quantum_task env c task requested s = do
    require_not_paused s
    let owner = (resolve_caller c s).0
    paid ← take_deposit c requested s
    validate_task_parameters task paid.0 paid.1
    let hash = seal env task
    guard (is_none (lookup hash s.quantum_tasks)) task_hash_exists
    counted ← enforce_rate_limits c owner paid.1
    ok (hash, store_task hash owner paid.0 counted)

  unfoldable pub schedule_sovereign_task :
      Env → Ctx → Buffer → Option ℕ → State S V → Result (Hash × State S V)
  schedule_sovereign_task env c payload requested s = do
    require_not_paused s
    let owner = (resolve_caller c s).0
    paid ← take_deposit c requested s
    guard (leb s.min_deposit paid.0) deposit_below_min
    require_deposit_within_cap paid.0 paid.1
    let hash = sovereign_hash env payload owner paid.0
    guard (is_none (lookup hash s.quantum_tasks)) sovereign_task_exists
    ok (hash, store_task hash owner paid.0 paid.1)

  unfoldable pub cancel_quantum_task : Ctx → Hash → State S V → Result (State S V)
  cancel_quantum_task c hash s = do
    non_payable c
    require_not_paused s
    task ← or_abort (lookup hash s.quantum_tasks) decode_error
    guard (not (is_zero task.owner)) task_not_found
    guard (task.owner == (resolve_caller c s).0) not_task_owner
    guard (is_pending task.status) only_pending_cancellable
    let fee = fee_of task.deposit s.protocol_fee_bps
    let refund = if ltb fee task.deposit then task.deposit - fee else 0
    let removed = record s {
      quantum_tasks = erase hash s.quantum_tasks;
      owner_tasks = remove_from task.owner hash s.owner_tasks;
    }
    refunded ← if ltb 0 refund then pay task.owner refund removed else ok removed
    ok (forward_protocol_fee fee refunded)
