-- ===== src/Scheduler/Lifecycle/Compressed.antt =====
-- Tasks that are proved to be in a compressed state and have no entry: `executeCompressedTask`.
use xcron_protocol.Prelude.{
  ℕ, ◌+◌, ◌-◌, ◌≤◌, ◌<◌, ◌≡◌, true, false, none, arith, lookup, read, inl, inr, lookup-insert, leb,
  ==_self, ap, ◌∙◌,
}
use xcron_protocol.Framework.{
  ◌>>=◌, Hash, Address, Ctx, SetMapper, Ensures, Ensures-ok, Returns, Returns-map, Returns-Ensures,
  is_ok, u64, paid_to, Result-cases, direct_egld,
}
use xcron_protocol.Common.{Buffer, Task, TaskStatus, QuantumTaskState}
use xcron_protocol.Scheduler.Environment.{Env, seal}
use xcron_protocol.Scheduler.State.{State}
use xcron_protocol.Scheduler.Scheduling.{fee_of}
use xcron_protocol.Scheduler.Validation.{require_safe_target, require_xwap_market_safe}
use xcron_protocol.Scheduler.Execution.{
  execute_compressed_task, dispatch_task_execution, start_task, execution_callback,
  finalize_failed_execution, settle_xse_task, rescue_stuck_xse_task,
}

-- The entry that a compressed task is executed with.
abbrev pub fresh_entry : Task → QuantumTaskState
fresh_entry task = record {
  owner = task.owner;
  deposit = task.deposit;
  status = TaskStatus.pending;
  executing_at = 0;
}

module _ {S V : Type 0} where
  -- The two states agree on all that `execute_compressed_task` tests.
  record AgreeOnTests (s s' : State S V) : Type 0 where
    paused : s'.paused ≡ s.paused
    keepers : s'.whitelisted_keepers ≡ s.whitelisted_keepers
    used : s'.used_compressed_tasks ≡ s.used_compressed_tasks
    xsc : s'.xsc_address ≡ s.xsc_address
    xwap : s'.xwap_address ≡ s.xwap_address
    registry : s'.keeper_registry_addr ≡ s.keeper_registry_addr
    rewards : s'.rewards_addr ≡ s.rewards_addr
    blacklist : s'.target_blacklist ≡ s.target_blacklist
    shards : s'.keeper_shard ≡ s.keeper_shard

  -- The balance fell by a refund to the owner, and no test changed.
  record Refunded (owner : Address) (refund : ℕ) (s s' : State S V) : Type 0 where
    lost : s'.account.balance + refund ≡ s.account.balance
    paid : paid_to owner s'.account.outbox ≡ paid_to owner s.account.outbox + refund
    agrees : AgreeOnTests s s'

module _ {S V : Type 0} ⦃sets : SetMapper S⦄ where
  execute_compressed_task-tests :
      (env : Env) (c : Ctx) (task : Task) (proof : Buffer) (s s' : State S V)
      → AgreeOnTests s s'
      → is_ok (execute_compressed_task env c task proof s)
        ≡ is_ok (execute_compressed_task env c task proof s')
  unfolding execute_compressed_task dispatch_task_execution require_safe_target
      require_xwap_market_safe
  execute_compressed_task-tests env c task proof s s' h = ground (
    arith, h.paused, h.keepers, h.used, h.xsc, h.xwap, h.registry, h.rewards, h.blacklist, h.shards,
  )

  execute_compressed_task-start_task :
      (env : Env) (c : Ctx) (task : Task) (proof : Buffer) (s : State S V)
      → Ensures
          (λ s1. s1 ≡ start_task c (seal env task) task (fresh_entry task) s)
          (execute_compressed_task env c task proof s)
  unfolding execute_compressed_task dispatch_task_execution
  execute_compressed_task-start_task env c task proof s = ground arith

  -- What the Scheduler lost to the owner, though nothing was deposited, and that the same call, with
  -- the same proof, succeeds again.
  pub record Repeatable (env : Env) (c : Ctx) (task : Task) (proof : Buffer) (refund : ℕ)
      (s s' : State S V) : Type 0 where
    pub lost : s'.account.balance + refund ≡ s.account.balance
    pub paid : paid_to task.owner s'.account.outbox ≡ paid_to task.owner s.account.outbox + refund
    pub again : is_ok (execute_compressed_task env c task proof s') ≡ true

  failure_pays :
      (hash : Hash) (target keeper owner : Address) (deposit : ℕ) (s : State S V)
      → let refund = deposit - fee_of deposit s.protocol_fee_bps in
        refund ≤ s.account.balance
        → Returns
            (λ s'.
              (s'.account.balance + refund ≡ s.account.balance)
              × (paid_to owner s'.account.outbox ≡ paid_to owner s.account.outbox + refund))
            (finalize_failed_execution hash target keeper deposit owner s)
  unfolding finalize_failed_execution direct_egld
  failure_pays hash target keeper owner deposit s cover = ground arith

  -- A failure that is not the tenth in a row changes nothing that the next execution tests.
  failure_agrees :
      (hash : Hash) (target keeper owner : Address) (deposit : ℕ) (s : State S V)
      → leb 10 (u64 (read target s.target_failure_count + 1)) ≡ false
      → Ensures (AgreeOnTests s) (finalize_failed_execution hash target keeper deposit owner s)
  unfolding finalize_failed_execution direct_egld
  failure_agrees hash target keeper owner deposit s few = ground (arith, few)

  callback_after_start :
      (c : Ctx) (hash : Hash) (keeper : Address) (task : Task) (s : State S V)
      → u64 (read task.target_contract s.target_failure_count + 1) < 10
      → let refund = task.deposit - fee_of task.deposit s.protocol_fee_bps in
        refund ≤ s.account.balance
        → Returns (Refunded task.owner refund s) (
            execution_callback hash task.target_contract keeper false
              (start_task c hash task (fresh_entry task) s))
  unfolding execution_callback
  callback_after_start c hash keeper task s few cover =
      let executing = record (fresh_entry task) {
        status = TaskStatus.executing;
        executing_at = c.timestamp;
      } in
      let s1 = start_task c hash task (fresh_entry task) s in
      let below : leb 10 (u64 (read task.target_contract s.target_failure_count + 1)) ≡ false =
        ground (arith, few) in
      let target = task.target_contract in
      let refund = task.deposit - fee_of task.deposit s.protocol_fee_bps in
      let covered : refund ≤ s1.account.balance = ground (arith, cover) in
      let same : (s1.account.balance ≡ s.account.balance)
          × (paid_to task.owner s1.account.outbox ≡ paid_to task.owner s.account.outbox) =
        ground arith in
      rw (lookup-insert hash hash executing s.quantum_tasks, ==_self hash)
        (Returns-Ensures {R = Refunded task.owner refund s} _
          (failure_pays hash target keeper task.owner task.deposit s1 covered)
          (failure_agrees hash target keeper task.owner task.deposit s1 below)
          (λ s' pays h. record {
            lost = pays.0 ∙ same.0;
            paid = pays.1 ∙ ap (λ n. n + refund) same.1;
            agrees = record {
              paused = h.paused;
              keepers = h.keepers;
              used = h.used;
              xsc = h.xsc;
              xwap = h.xwap;
              registry = h.registry;
              rewards = h.rewards;
              blacklist = h.blacklist;
              shards = h.shards;
            };
          }))

  -- When a compressed task is executed and its target's call fails, the Scheduler pays the task's
  -- deposit less the fee to the task's owner out of its balance, although it received no deposit. The
  -- task is not marked as used: the same call with the same proof succeeds again in the state that
  -- this leaves, as long as the other contracts answer as before and this failure does not put the
  -- target, with fewer than ten failures in a row, on the blacklist. The balance covers
  -- the payment.
  pub compressed_failure_repeats :
      (env : Env) (c : Ctx) (task : Task) (proof : Buffer) (s : State S V)
      → is_ok (execute_compressed_task env c task proof s) ≡ true
      → u64 (read task.target_contract s.target_failure_count + 1) < 10
      → let refund = task.deposit - fee_of task.deposit s.protocol_fee_bps in
        refund ≤ s.account.balance
        → Returns (Repeatable env c task proof refund s) (
            execute_compressed_task env c task proof s
            >>= execution_callback (seal env task) task.target_contract c.caller false)
  compressed_failure_repeats env c task proof s runs few cover =
      elim (Result-cases (execute_compressed_task env c task proof s)) [
        | inl (x, e) ↦ ground (arith, runs, e)
        | inr (s1, e) ↦
            let start =
              Ensures-ok _ (execute_compressed_task env c task proof s)
                (execute_compressed_task-start_task env c task proof s) e in
            let refund = task.deposit - fee_of task.deposit s.protocol_fee_bps in
            rw (e, start)
              (Returns-map {Q = Repeatable env c task proof refund s} _
                (callback_after_start c (seal env task) c.caller task s few cover)
                (λ s' left. record {
                  lost = left.lost;
                  paid = left.paid;
                  again =
                      rw (← execute_compressed_task-tests env c task proof s s' left.agrees) runs;
                }))
      ]

  -- A confidential compressed task that is executed is assigned to no keeper, so neither a
  -- settlement nor a rescue by anyone succeeds at any time in the state that it leaves.
  pub compressed_confidential_stuck :
      (env : Env) (c c' : Ctx) (task : Task) (proof zk_proof : Buffer) (s : State S V)
      → task.confidential ≡ true
      → lookup (seal env task) s.assigned_enclave_keeper ≡ none
      → Ensures
          (λ s'.
            (is_ok (settle_xse_task env c' (seal env task) zk_proof s') ≡ false)
            × (is_ok (rescue_stuck_xse_task c' (seal env task) s') ≡ false))
          (execute_compressed_task env c task proof s)
  unfolding execute_compressed_task dispatch_task_execution settle_xse_task rescue_stuck_xse_task
  compressed_confidential_stuck env c c' task proof zk_proof s conf e = ground (arith, e)
