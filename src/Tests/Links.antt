-- ===== src/Tests/Links.antt =====
-- The theorems on the contracts together, at concrete states.
use xcron_protocol.Prelude.{
  ◌+◌, ◌*◌, ◌≤◌, ◌<◌, ◌≡◌, refl, true, false, none, some, List, [], ◌∷◌, arith, be_bytes, read,
}
use xcron_protocol.Framework.{Hash, len, Returns}
use xcron_protocol.Common.{Task, TaskStatus}
use xcron_protocol.Merkle.Proof.{parent_hash, compute_parent_hash}
use xcron_protocol.Merkle.Agreement.{Tree, proof_at}
use xcron_protocol.Scheduler.Environment.{Env}
use xcron_protocol.Scheduler.State.{get_timestamp_ms}
use xcron_protocol.Scheduler.Config.{flush_protocol_fees}
use xcron_protocol.Scheduler.Validation.{
  require_safe_target, is_dangerous, require_task_ripe_quantum, require_trigger_met, is_expired,
  require_xwap_market_safe,
}
use xcron_protocol.Scheduler.Execution.{
  execute_compressed_task, execute_quantum_task, dispatch_task_execution, min_gas_needed,
  require_secret, perform_round_robin_check,
}
use xcron_protocol.Scheduler.Lifecycle.Compressed.{fresh_entry}
use xcron_protocol.XscCore.Contract as Xsc
use xcron_protocol.XscCore.Unpacking.{IsUnderRoot}
use xcron_protocol.XscCore.Contract.{verify_proof, fold_slices, be_number}
use xcron_protocol.XscCore.Packing.{pack}
use xcron_protocol.Xwap.Keepers.{
  insertion_sort, sort_from, sink, get, set, fresh_prices, get_median_off_chain, agreeing_of,
  agreeing, divergence, middle, check_consensus,
}
use xcron_protocol.Xwap.Oracle.{is_safe_to_execute, compute_signals, check_gate_internal, has_fresh}
use xcron_protocol.Compose.Links.{IsFramework, linked}
use xcron_protocol.Compose.States.{
  IsAdmitted, execute_compressed_task_proved, execute_compressed_task_complete,
}
use xcron_protocol.Compose.Markets.{execute_quantum_task-majority}
use xcron_protocol.Compose.Fees.{deliver, flush_protocol_fees_conserves}
use xcron_protocol.Tests.Models.{bit_set, bit_items, dict_vec, env, as_caller, account_of}
use xcron_protocol.Tests.Schedule.{Scheduler, ready, job, holding}
use xcron_protocol.Tests.Prices.{reported}
use xcron_protocol.Tests.Fees.{Rewards, earned}

-- Every buffer hashes to 7, and a Boolean is true unless its buffer is empty.
abbrev linkable : Env
linkable = record env {
  sha256 = λ b. 7;
  bool_top_decode = λ b. elim b [ [] ↦ some false | x ∷ xs ↦ some true ];
}

linkable-IsFramework : IsFramework linkable
linkable-IsFramework = record { decodes = λ b. ground arith; bounded = λ b. omega arith }

abbrev posted : Xsc.State
posted = record {
  merkle_root = be_bytes 32 7;
  authorized_keeper = some 4;
  root_nonce = 1;
  is_paused = false;
}

execute_compressed_task_proved_example :
    (siblings : List Hash) × (r : Hash) × IsUnderRoot linkable.sha256 7
      (be_bytes 32 11)
      posted
      siblings
      r
unfolding bit_set bit_items execute_compressed_task dispatch_task_execution
    require_task_ripe_quantum is_expired require_trigger_met get_timestamp_ms require_safe_target
    is_dangerous min_gas_needed verify_proof fold_slices be_number compute_parent_hash be_bytes
execute_compressed_task_proved_example =
    execute_compressed_task_proved linkable linkable-IsFramework posted reported (as_caller 3) job
      (be_bytes 32 11) ready (ground arith) refl

-- The task's seal and a sibling.
abbrev two_leaves : Tree
two_leaves = Tree.node (Tree.leaf 7) (Tree.leaf 11)

ready-IsAdmitted : IsAdmitted (as_caller 3) 7 10 ready
unfolding bit_set
ready-IsAdmitted = record {
  no_payment = refl;
  running = refl;
  registered = refl;
  unused = refl;
  configured = refl;
  real = refl;
}

execute_compressed_task_complete_example :
    execute_compressed_task
      (linked linkable posted (as_caller 3) reported)
      (as_caller 3)
      job
      (pack (11 ∷ []))
      ready
    ≡ dispatch_task_execution
        (linked linkable posted (as_caller 3) reported)
        (as_caller 3)
        7
        job
        3
        (fresh_entry job)
        ready
unfolding proof_at parent_hash
execute_compressed_task_complete_example =
    execute_compressed_task_complete linkable linkable-IsFramework posted reported (as_caller 3) job
      (11 ∷ []) 7 ready (omega arith, (omega arith, tt), omega arith) (refl, refl) 10 two_leaves
      (true ∷ []) ready-IsAdmitted (omega arith, omega arith) refl refl

-- A task that asks for a safe market, at a Scheduler with the oracle 12.
abbrev careful_job : Task
careful_job = record job { require_xwap_safe = true }

abbrev watching : Scheduler
watching = record (holding TaskStatus.pending) {
  quantum_tasks =
      (7, record { owner = 4; deposit = 1000; status = TaskStatus.pending; executing_at = 0 }) ∷ [];
  xwap_address = some 12;
}

execute_quantum_task-majority_example :
    (0 < len reported.registered_keepers)
    × (len reported.registered_keepers ≤ 2 * agreeing_of (as_caller 3) reported)
    × (divergence 1005 (get_median_off_chain (as_caller 3) reported) < 100)
unfolding bit_set bit_items dict_vec execute_quantum_task require_secret perform_round_robin_check
    dispatch_task_execution require_task_ripe_quantum is_expired require_trigger_met
    get_timestamp_ms require_safe_target is_dangerous min_gas_needed require_xwap_market_safe
    is_safe_to_execute compute_signals check_gate_internal check_consensus get_median_off_chain
    insertion_sort sort_from sink get set fresh_prices agreeing middle has_fresh
execute_quantum_task-majority_example =
    execute_quantum_task-majority linkable linkable-IsFramework posted reported (as_caller 3)
      careful_job none 12 watching refl (refl, refl) (omega arith, omega arith, omega arith) refl

-- 30 of fees have accrued; the Rewards contract knows the Scheduler, 2.
abbrev accrued : Scheduler
accrued = record ready { accrued_protocol_fees = 30; account = account_of 50 }

abbrev knowing : Rewards
knowing = record earned { authorized_schedulers = false ∷ false ∷ true ∷ [] }

flush_protocol_fees_conserves_example :
    Returns
      (λ s'.
        Returns
          (λ r'.
            (s'.accrued_protocol_fees ≡ 0)
            × (r'.treasury_balance + read 3 r'.pending_rewards ≡ 20 + 80 + 30)
            × (s'.account.balance + r'.account.balance ≡ 50 + 100))
          (deliver (as_caller 1) 2 9 s'.account.outbox knowing))
      (flush_protocol_fees (as_caller 3) accrued)
unfolding bit_set
flush_protocol_fees_conserves_example =
    flush_protocol_fees_conserves (as_caller 3) (as_caller 1) 9 accrued knowing (refl, refl) refl
      (omega arith, omega arith) refl (omega arith)
