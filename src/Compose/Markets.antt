-- ===== src/Compose/Markets.antt =====
-- Tasks that wait for a safe market: the Scheduler's `executeQuantumTask` over contracts/xwap.
use xcron_protocol.Prelude.{
  ◌*◌, ◌^◌, ◌≤◌, ◌<◌, ◌≡◌, true, false, Option, some, arith, lookup, Option-cases, inl, inr,
}
use xcron_protocol.Framework.{
  Address, Hash, Ctx, SetMapper, SetItems, VecMapper, len, is_ok, is_zero,
}
use xcron_protocol.Common.{Task}
use xcron_protocol.Scheduler.Environment.{Env, seal}
use xcron_protocol.Scheduler.State.{State}
use xcron_protocol.Scheduler.Validation.{require_xwap_market_safe}
use xcron_protocol.Scheduler.Execution.{execute_quantum_task, dispatch_task_execution}
use xcron_protocol.XscCore.Contract as Xsc
use xcron_protocol.Xwap.State as Xwap
use xcron_protocol.Xwap.Keepers.{agreeing_of, divergence, get_median_off_chain}
use xcron_protocol.Xwap.Oracle.{is_safe_to_execute}
use xcron_protocol.Xwap.Safety.{is_safe_to_execute-majority}
use xcron_protocol.Compose.Links.{IsFramework, linked}

module _ {S V W : Type 0} ⦃sets : SetMapper S⦄ ⦃vecs : VecMapper V⦄ ⦃wsets : SetMapper W⦄
    ⦃its : SetItems W⦄ where
  -- A task that asks for a safe market is started only in a block in which the oracle says so.
  execute_quantum_task_asks :
      (env : Env) (fw : IsFramework env) (x : Xsc.State) (w : Xwap.State W) (c : Ctx) (task : Task)
      (secret : Option Hash) (xwap : Address) (s : State S V)
      → task.require_xwap_safe ≡ true
      → (s.xwap_address ≡ some xwap) × (is_zero xwap ≡ false)
      → is_ok (execute_quantum_task (linked env x c w) c task secret s) ≡ true
      → is_safe_to_execute c w ≡ true
  unfolding execute_quantum_task dispatch_task_execution require_xwap_market_safe
  execute_quantum_task_asks env fw x w c task secret xwap s asks set started =
      elim (Option-cases (lookup (seal env task) s.quantum_tasks)) [
        | inl e ↦ ground (arith, e, started)
        | inr (t, e) ↦ ground (arith, e, started, asks, set, fw.decodes (is_safe_to_execute c w))
      ]

  -- A task that asks for a safe market starts only in a block in which at least half of all keepers
  -- that are registered at the oracle have a fresh report near the median, and the oracle's price is
  -- off that median by less than its threshold: if the Scheduler has an oracle whose owner asks for
  -- the agreement of at least a half.
  pub execute_quantum_task-majority :
      (env : Env) (fw : IsFramework env) (x : Xsc.State) (w : Xwap.State W) (c : Ctx) (task : Task)
      (secret : Option Hash) (xwap : Address) (s : State S V)
      → task.require_xwap_safe ≡ true
      → (s.xwap_address ≡ some xwap) × (is_zero xwap ≡ false)
      → (500 ≤ w.consensus_min_permille)
        × (w.gate_threshold_permille < 2 ^ 32)
        × (len w.registered_keepers < 2 ^ 32)
      → is_ok (execute_quantum_task (linked env x c w) c task secret s) ≡ true
      → (0 < len w.registered_keepers)
        × (len w.registered_keepers ≤ 2 * agreeing_of c w)
        × (divergence w.xwap_price (get_median_off_chain c w) < w.gate_threshold_permille)
  execute_quantum_task-majority env fw x w c task secret xwap s asks set bounds started =
      is_safe_to_execute-majority c w bounds.0 bounds.1 bounds.2
        (execute_quantum_task_asks env fw x w c task secret xwap s asks set started)
