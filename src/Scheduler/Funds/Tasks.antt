-- ===== src/Scheduler/Funds/Tasks.antt =====
-- The funds of tasks, as scheduling, cancelling and settling leave them.
use xcron_protocol.Prelude.{
  ℕ, ◌+◌, ◌≤◌, ◌<◌, ◌≡◌, Option, none, some, arith, lookup, Option-cases, inl, inr, Distinct-insert,
  Distinct-erase, total-insert, total-erase, AllValues-insert, AllValues-lookup,
}
use xcron_protocol.Framework.{
  Address, Hash, Ctx, SetMapper, Ensures, Result-cases, Ensures-ok, direct_egld,
}
use xcron_protocol.Common.{Buffer, Task, QuantumTaskState, bps_le}
use xcron_protocol.Scheduler.Environment.{Env, seal}
use xcron_protocol.Scheduler.State.{State}
use xcron_protocol.Scheduler.CloneKeys.{unspent, charge_clone_key, resolve_caller}
use xcron_protocol.Scheduler.Validation.{enforce_rate_limits}
use xcron_protocol.Scheduler.Scheduling.{
  new_task_state, fee_of, take_deposit, store_task, schedule_quantum_task, schedule_sovereign_task,
  cancel_quantum_task, sovereign_hash,
}
use xcron_protocol.Scheduler.Execution.{
  calculate_reward, close_task, finalize_successful_execution, finalize_failed_execution,
}
use xcron_protocol.Scheduler.Calls.{state_of}
use xcron_protocol.Scheduler.Funds.Books.{Covers, IsWithin, deposit_of}

fee_le : (deposit bps : ℕ) → bps ≤ 10000 → fee_of deposit bps ≤ deposit
fee_le deposit bps h = bps_le deposit bps h

-- With a fee of at most 100%, a reward and the fee together stay within the deposit, and a cap above
-- 0 bounds the reward.
pub calculate_reward_bounds :
    (deposit bps max_reward : ℕ)
    → bps ≤ 10000
    → (calculate_reward deposit bps max_reward + fee_of deposit bps ≤ deposit)
      × (0 < max_reward → calculate_reward deposit bps max_reward ≤ max_reward)
unfolding calculate_reward
calculate_reward_bounds deposit bps max_reward h = ground (arith, fee_le deposit bps h)

module _ {S V : Type 0} where
  abbrev CoversPaid : ℕ × State S V → Type 0
  CoversPaid (deposit, s) = Covers deposit s

  charge_clone_key-Covers :
      (c : Ctx) (clone amount : ℕ) (s : State S V)
      → Covers 0 s
      → Ensures (Covers amount) (charge_clone_key c clone amount s)
  unfolding charge_clone_key
  charge_clone_key-Covers c clone amount s h =
      elim (Option-cases (lookup clone s.clone_key_props)) [
        | inl e ↦ ground (arith, e)
        | inr (props, e) ↦
            let charged = record props { spent_amount = props.spent_amount + amount } in
            ground (
              arith,
              e,
              Distinct-insert clone charged s.clone_key_props h.keys_distinct,
              total-insert unspent clone charged s.clone_key_props,
              AllValues-insert IsWithin clone charged s.clone_key_props,
              h.keys_within,
              AllValues-lookup IsWithin clone props s.clone_key_props h.keys_within e,
            )
      ]

  take_deposit-Covers :
      (c : Ctx) (requested : Option ℕ) (s : State S V)
      → Covers 0 s
      → Ensures CoversPaid (take_deposit c requested s)
  unfolding take_deposit
  take_deposit-Covers c none s h = ground arith
  take_deposit-Covers c (some req) s h = ground (arith, charge_clone_key-Covers c c.caller req s h)

module _ {S V : Type 0} ⦃sets : SetMapper S⦄ where
  enforce_rate_limits-Covers :
      (n : ℕ) (c : Ctx) (caller : Address) (s : State S V)
      → Covers n s
      → Ensures (Covers n) (enforce_rate_limits c caller s)
  unfolding enforce_rate_limits
  enforce_rate_limits-Covers n c caller s h = ground arith

  store_task-Covers :
      (hash : Hash) (owner deposit : ℕ) (s : State S V)
      → Covers deposit s
      → Covers 0 (store_task hash owner deposit s)
  store_task-Covers hash owner deposit s h = ground (
    arith,
    Distinct-insert hash (new_task_state owner deposit) s.quantum_tasks h.tasks_distinct,
    total-insert deposit_of hash (new_task_state owner deposit) s.quantum_tasks,
  )

  pub schedule_quantum_task-Covers :
      (env : Env) (c : Ctx) (task : Task) (requested : Option ℕ) (s : State S V)
      → Covers 0 s
      → Ensures (Covers 0) (state_of (schedule_quantum_task env c task requested s))
  unfolding schedule_quantum_task
  schedule_quantum_task-Covers env c task requested s h =
      elim (Result-cases (take_deposit c requested s)) [
        | inl (x, e) ↦ ground (arith, e)
        | inr ((deposit, s1), e) ↦
            let owner = (resolve_caller c s).0 in
            let paid : Covers deposit s1 =
              Ensures-ok CoversPaid (take_deposit c requested s)
                (take_deposit-Covers c requested s h) e in
            elim (Result-cases (enforce_rate_limits c owner s1)) [
              | inl (x, r) ↦ ground (arith, e, r)
              | inr (s2, r) ↦ ground (
                arith,
                e,
                r,
                store_task-Covers (seal env task) owner deposit s2 (
                    Ensures-ok (Covers deposit) (enforce_rate_limits c owner s1)
                      (enforce_rate_limits-Covers deposit c owner s1 paid) r),
              )
            ]
      ]

  pub schedule_sovereign_task-Covers :
      (env : Env) (c : Ctx) (payload : Buffer) (requested : Option ℕ) (s : State S V)
      → Covers 0 s
      → Ensures (Covers 0) (state_of (schedule_sovereign_task env c payload requested s))
  unfolding schedule_sovereign_task
  schedule_sovereign_task-Covers env c payload requested s h =
      elim (Result-cases (take_deposit c requested s)) [
        | inl (x, e) ↦ ground (arith, e)
        | inr ((deposit, s1), e) ↦
            let owner = (resolve_caller c s).0 in
            ground (
              arith,
              e,
              store_task-Covers (sovereign_hash env payload owner deposit) owner deposit s1 (
                  Ensures-ok CoversPaid (take_deposit c requested s)
                    (take_deposit-Covers c requested s h) e),
            )
      ]

  -- What a closed task leaves to pay out.
  pub close_task-Covers :
      (hash : Hash) (t : QuantumTaskState) (s : State S V)
      → lookup hash s.quantum_tasks ≡ some t
      → Covers 0 s
      → Covers t.deposit (close_task hash t.owner s)
  close_task-Covers hash t s e h = ground (
    arith,
    e,
    Distinct-erase hash s.quantum_tasks h.tasks_distinct,
    total-erase deposit_of hash s.quantum_tasks h.tasks_distinct,
  )

  pub cancel_quantum_task-Covers :
      (c : Ctx) (hash : Hash) (s : State S V)
      → Covers 0 s
      → Ensures (Covers 0) (cancel_quantum_task c hash s)
  unfolding cancel_quantum_task direct_egld
  cancel_quantum_task-Covers c hash s h = elim (Option-cases (lookup hash s.quantum_tasks)) [
    | inl e ↦ ground (arith, e)
    | inr (t, e) ↦ ground (
      arith,
      e,
      fee_le t.deposit s.protocol_fee_bps h.fee_capped,
      Distinct-erase hash s.quantum_tasks h.tasks_distinct,
      total-erase deposit_of hash s.quantum_tasks h.tasks_distinct,
    )
  ]

  pub finalize_successful_execution-Covers :
      (hash : Hash) (target keeper : Address) (t : QuantumTaskState) (s : State S V)
      → lookup hash s.quantum_tasks ≡ some t
      → Covers 0 s
      → Ensures (Covers 0) (finalize_successful_execution hash target keeper t.deposit t.owner s)
  unfolding finalize_successful_execution direct_egld
  finalize_successful_execution-Covers hash target keeper t s e h =
      let bounds =
        calculate_reward_bounds t.deposit s.protocol_fee_bps s.max_reward_per_exec h.fee_capped in
      ground (arith, bounds.0, close_task-Covers hash t s e h)

  pub finalize_failed_execution-Covers :
      (hash : Hash) (target keeper : Address) (t : QuantumTaskState) (s : State S V)
      → lookup hash s.quantum_tasks ≡ some t
      → Covers 0 s
      → Ensures (Covers 0) (finalize_failed_execution hash target keeper t.deposit t.owner s)
  unfolding finalize_failed_execution direct_egld
  finalize_failed_execution-Covers hash target keeper t s e h =
      ground
        (arith, fee_le t.deposit s.protocol_fee_bps h.fee_capped, close_task-Covers hash t s e h)
