-- ===== src/Scheduler/Calls.antt =====
-- The transactions that the Scheduler accepts, as data. A callback stands for any that the framework
-- may deliver: its arguments are arbitrary.
use xcron_protocol.Prelude.{ℕ, Bool, Option, List, [], ◌∷◌}
use xcron_protocol.Framework.{
  Result, ok, err, after, Address, TokenId, Hash, Ctx, SetMapper, VecMapper,
}
use xcron_protocol.Common.{Buffer, Task, MultiIntentOutcome}
use xcron_protocol.Scheduler.Environment.{Env}
use xcron_protocol.Scheduler.State.{State, upgrade}
use xcron_protocol.Scheduler.Config.{
  pause, unpause, set_min_deposit, set_protocol_fee_bps, set_reveal_window, set_commit_bond,
  set_keeper_registry_addr, set_rewards_addr, set_xwap_address, set_xsc_address,
  set_zk_verifier_addr, set_max_reward_per_exec, set_max_exec_value, blacklist_target,
  remove_blacklist, register_keeper_shard, flush_protocol_fees, add_whitelisted_keeper,
  remove_whitelisted_keeper,
}
use xcron_protocol.Scheduler.CloneKeys.{authorize_clone_key, revoke_clone_key, fund_clone_key}
use xcron_protocol.Scheduler.Scheduling.{
  schedule_quantum_task, schedule_sovereign_task, cancel_quantum_task,
}
use xcron_protocol.Scheduler.Execution.{
  execute_quantum_task, execute_compressed_task, execution_callback, settle_xse_task,
  rescue_stuck_xse_task,
}
use xcron_protocol.Scheduler.Intents.{
  create_intent, cancel_intent, solve_intent, create_multi_intent, cancel_multi_intent,
  solve_multi_intent, Leaf, create_pre_cognitive_intent, cancel_pre_cognitive_intent,
  execute_pre_cognitive_leaf,
}

pub data NumberSetting : Type 0 where
  min_deposit protocol_fee_bps reveal_window commit_bond max_reward_per_exec : NumberSetting
  max_exec_value : NumberSetting

pub data AddressSetting : Type 0 where
  keeper_registry rewards xwap xsc zk_verifier blacklist unblacklist : AddressSetting
  add_keeper remove_keeper : AddressSetting

pub data Call : Type 0 where
  schedule : (task : Task) (requested : Option ℕ) → Call
  schedule_sovereign : (payload : Buffer) (requested : Option ℕ) → Call
  cancel_task : (hash : Hash) → Call
  execute : (task : Task) (secret : Option Hash) → Call
  execute_compressed : (task : Task) (proof : Buffer) → Call
  callback : (hash : Hash) (target keeper : Address) (succeeded : Bool) → Call
  settle : (hash : Hash) (proof : Buffer) → Call
  rescue : (hash : Hash) → Call
  authorize_key : (clone : Address) (ttl : ℕ) → Call
  revoke_key fund_key : (clone : Address) → Call
  open_intent : (token_out : TokenId) (min_return deadline fee : ℕ) → Call
  cancel_single solve_single : (id : ℕ) → Call
  open_multi : (outcomes : List MultiIntentOutcome) (deadline fee : ℕ) → Call
  cancel_multi solve_multi : (id : ℕ) → Call
  open_tree : (merkle_root : Hash) (deadline fee : ℕ) → Call
  cancel_tree : (id : ℕ) → Call
  execute_leaf : (id : ℕ) (proof : List Hash) (leaf : Leaf) → Call
  flush register_shard pause_call unpause_call upgrade_call : Call
  set_number : NumberSetting → ℕ → Call
  set_address : AddressSetting → Address → Call

-- The state that a call with a result leaves.
abbrev pub state_of {ℓ κ} : {A : Type ℓ} {B : Type κ} → Result (A × B) → Result B
state_of (ok (a, s)) = ok s
state_of (err e) = err e

module _ {S V : Type 0} where
  unfoldable pub dispatch_number : Ctx → NumberSetting → ℕ → State S V → Result (State S V)
  dispatch_number c min_deposit n s = set_min_deposit c n s
  dispatch_number c protocol_fee_bps n s = set_protocol_fee_bps c n s
  dispatch_number c reveal_window n s = set_reveal_window c n s
  dispatch_number c commit_bond n s = set_commit_bond c n s
  dispatch_number c max_reward_per_exec n s = set_max_reward_per_exec c n s
  dispatch_number c max_exec_value n s = set_max_exec_value c n s

module _ {S V : Type 0} ⦃sets : SetMapper S⦄ ⦃vecs : VecMapper V⦄ where
  unfoldable pub dispatch_address : Ctx → AddressSetting → Address → State S V → Result (State S V)
  dispatch_address c keeper_registry a s = set_keeper_registry_addr c a s
  dispatch_address c rewards a s = set_rewards_addr c a s
  dispatch_address c xwap a s = set_xwap_address c a s
  dispatch_address c xsc a s = set_xsc_address c a s
  dispatch_address c zk_verifier a s = set_zk_verifier_addr c a s
  dispatch_address c blacklist a s = blacklist_target c a s
  dispatch_address c unblacklist a s = remove_blacklist c a s
  dispatch_address c add_keeper a s = add_whitelisted_keeper c a s
  dispatch_address c remove_keeper a s = remove_whitelisted_keeper c a s

  unfoldable pub dispatch : Env → Ctx → Call → State S V → Result (State S V)
  dispatch env c (schedule task requested) s =
      state_of (schedule_quantum_task env c task requested s)
  dispatch env c (schedule_sovereign payload requested) s =
      state_of (schedule_sovereign_task env c payload requested s)
  dispatch env c (cancel_task hash) s = cancel_quantum_task c hash s
  dispatch env c (execute task secret) s = execute_quantum_task env c task secret s
  dispatch env c (execute_compressed task proof) s = execute_compressed_task env c task proof s
  dispatch env c (callback hash target keeper b) s = execution_callback hash target keeper b s
  dispatch env c (settle hash proof) s = settle_xse_task env c hash proof s
  dispatch env c (rescue hash) s = rescue_stuck_xse_task c hash s
  dispatch env c (authorize_key clone ttl) s = authorize_clone_key c clone ttl s
  dispatch env c (revoke_key clone) s = revoke_clone_key c clone s
  dispatch env c (fund_key clone) s = fund_clone_key c clone s
  dispatch env c (open_intent token_out min_return deadline fee) s =
      state_of (create_intent c token_out min_return deadline fee s)
  dispatch env c (cancel_single id) s = cancel_intent c id s
  dispatch env c (solve_single id) s = solve_intent c id s
  dispatch env c (open_multi outcomes deadline fee) s =
      state_of (create_multi_intent c outcomes deadline fee s)
  dispatch env c (cancel_multi id) s = cancel_multi_intent c id s
  dispatch env c (solve_multi id) s = solve_multi_intent c id s
  dispatch env c (open_tree merkle_root deadline fee) s =
      state_of (create_pre_cognitive_intent c merkle_root deadline fee s)
  dispatch env c (cancel_tree id) s = cancel_pre_cognitive_intent c id s
  dispatch env c (execute_leaf id proof leaf) s = execute_pre_cognitive_leaf env c id proof leaf s
  dispatch env c flush s = flush_protocol_fees c s
  dispatch env c register_shard s = register_keeper_shard env.shard_of c s
  dispatch env c pause_call s = pause c s
  dispatch env c unpause_call s = unpause c s
  dispatch env c upgrade_call s = ok (upgrade s)
  dispatch env c (set_number setting n) s = dispatch_number c setting n s
  dispatch env c (set_address setting a) s = dispatch_address c setting a s

  -- A sequence of transactions; one that fails leaves the state as it was.
  unfoldable pub run : Env → List (Ctx × Call) → State S V → State S V
  run env [] s = s
  run env ((c, call) ∷ calls) s = run env calls (after s (dispatch env c call s))
