-- ===== src/Scheduler/Lifecycle/Ending.antt =====
-- The end of an execution: who is paid what, once.
use xcron_protocol.Prelude.{
  ℕ, ◌+◌, ◌-◌, ◌≡◌, ◌≢◌, Bool, true, false, none, some, arith, lookup, lookup-erase, share-le-total,
}
use xcron_protocol.Framework.{
  Result, ok, Address, Hash, Ctx, SetMapper, Ensures, Ensures-ok, Returns, is_ok, paid_to,
  direct_egld,
}
use xcron_protocol.Common.{Buffer, QuantumTaskState}
use xcron_protocol.Scheduler.Environment.{Env}
use xcron_protocol.Scheduler.State.{State}
use xcron_protocol.Scheduler.Scheduling.{fee_of, cancel_quantum_task}
use xcron_protocol.Scheduler.Execution.{
  calculate_reward, finalize_successful_execution, finalize_failed_execution, execution_callback,
  settle_xse_task, rescue_stuck_xse_task,
}
use xcron_protocol.Scheduler.Funds.Books.{Covers, deposit_of}
use xcron_protocol.Scheduler.Funds.Tasks.{calculate_reward_bounds}

pub data Ending : Type 0 where
  called_back : (target keeper : Address) (succeeded : Bool) → Ending
  settled : (env : Env) (c : Ctx) (zk_proof : Buffer) → Ending
  rescued cancelled : (c : Ctx) → Ending

module _ {S V : Type 0} ⦃sets : SetMapper S⦄ where
  -- `s'` paid these amounts to a keeper and an owner, and kept the fee.
  pub record Pays (keeper owner reward refund fee : ℕ) (s s' : State S V) : Type 0 where
    pub to_keeper : paid_to keeper s'.account.outbox ≡ paid_to keeper s.account.outbox + reward
    pub to_owner : paid_to owner s'.account.outbox ≡ paid_to owner s.account.outbox + refund
    pub kept : s'.accrued_protocol_fees ≡ s.accrued_protocol_fees + fee
    pub spent : s'.account.balance + reward + refund ≡ s.account.balance

  -- When the target's call succeeds, for a task with an entry in a solvent Scheduler and a keeper that
  -- is not its owner, the callback does not abort: the keeper receives the reward, the owner what reward and fee leave of the
  -- deposit, and the fee is accrued. The three amounts add up to the deposit, so no part is lost.
  pub execution_callback-Pays :
      (hash : Hash) (target keeper : Address) (t : QuantumTaskState) (s : State S V)
      → Covers 0 s
      → lookup hash s.quantum_tasks ≡ some t
      → keeper ≢ t.owner
      → let reward = calculate_reward t.deposit s.protocol_fee_bps s.max_reward_per_exec in
        let fee = fee_of t.deposit s.protocol_fee_bps in
        let refund = t.deposit - (reward + fee) in
        (reward + fee + refund ≡ t.deposit)
        × Returns
            (Pays keeper t.owner reward refund fee s)
            (execution_callback hash target keeper true s)
  unfolding execution_callback finalize_successful_execution direct_egld
  execution_callback-Pays hash target keeper t s h e ne =
      let bounds =
        calculate_reward_bounds t.deposit s.protocol_fee_bps s.max_reward_per_exec h.fee_capped in
      ground (arith, e, bounds.0, share-le-total deposit_of hash s.quantum_tasks, h)

  -- When the target's call fails, for a task with an entry in a solvent Scheduler and a keeper that is
  -- not its owner, the callback does not abort: the keeper receives nothing, and the owner the deposit
  -- less the fee, which is accrued; the full deposit is returned only where the fee is zero.
  pub execution_callback_refunds :
      (hash : Hash) (target keeper : Address) (t : QuantumTaskState) (s : State S V)
      → Covers 0 s
      → lookup hash s.quantum_tasks ≡ some t
      → keeper ≢ t.owner
      → let fee = fee_of t.deposit s.protocol_fee_bps in
        Returns
          (Pays keeper t.owner 0 (t.deposit - fee) fee s)
          (execution_callback hash target keeper false s)
  unfolding execution_callback finalize_failed_execution direct_egld
  execution_callback_refunds hash target keeper t s h e ne =
      ground (arith, e, share-le-total deposit_of hash s.quantum_tasks, h)

  -- How the execution of a task may end: its target's call is called back, the enclave's keeper
  -- settles it, its owner rescues it, or it is cancelled.
  abbrev pub end_task : Ending → Hash → State S V → Result (State S V)
  end_task (called_back target keeper succeeded) hash s =
      execution_callback hash target keeper succeeded s
  end_task (settled env c zk_proof) hash s = settle_xse_task env c hash zk_proof s
  end_task (rescued c) hash s = rescue_stuck_xse_task c hash s
  end_task (cancelled c) hash s = cancel_quantum_task c hash s

  -- Without an entry, nothing can end a task.
  no_entry_aborts :
      (e : Ending) (hash : Hash) (s : State S V)
      → lookup hash s.quantum_tasks ≡ none
      → is_ok (end_task e hash s) ≡ false
  unfolding execution_callback settle_xse_task rescue_stuck_xse_task cancel_quantum_task
  no_entry_aborts (called_back target keeper succeeded) hash s h = ground (arith, h)
  no_entry_aborts (settled env c zk_proof) hash s h = ground (arith, h)
  no_entry_aborts (rescued c) hash s h = ground (arith, h)
  no_entry_aborts (cancelled c) hash s h = ground (arith, h)

  end_task-removes :
      (e : Ending) (hash : Hash) (s : State S V)
      → Ensures (λ s'. lookup hash s'.quantum_tasks ≡ none) (end_task e hash s)
  unfolding execution_callback settle_xse_task rescue_stuck_xse_task cancel_quantum_task
      finalize_successful_execution finalize_failed_execution direct_egld
  end_task-removes (called_back target keeper succeeded) hash s =
      ground (arith, lookup-erase hash hash s.quantum_tasks)
  end_task-removes (settled env c zk_proof) hash s =
      ground (arith, lookup-erase hash hash s.quantum_tasks)
  end_task-removes (rescued c) hash s = ground (arith, lookup-erase hash hash s.quantum_tasks)
  end_task-removes (cancelled c) hash s = ground (arith, lookup-erase hash hash s.quantum_tasks)

  -- A task ends once: when it was called back, settled, rescued or cancelled, then in the state that
  -- this leaves no call back, settlement, rescue or cancellation for the same hash succeeds, whoever
  -- sends it.
  pub end_task_once :
      (e e' : Ending) (hash : Hash) (s s' : State S V)
      → end_task e hash s ≡ ok s'
      → is_ok (end_task e' hash s') ≡ false
  end_task_once e e' hash s s' done = no_entry_aborts e' hash s' (
      Ensures-ok (λ s'. lookup hash s'.quantum_tasks ≡ none) (end_task e hash s)
        (end_task-removes e hash s) done)
