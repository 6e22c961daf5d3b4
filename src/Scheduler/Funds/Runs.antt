-- ===== src/Scheduler/Funds/Runs.antt =====
-- The Scheduler's books along a run.
use xcron_protocol.Prelude.{ℕ, ◌*◌, ◌≤◌, ◌≡◌, some, List, [], ◌∷◌, arith, lookup, AllValues-lookup}
use xcron_protocol.Framework.{after, Address, Ctx, SetMapper, VecMapper, Ensures, direct_egld}
use xcron_protocol.Common.{CloneKeyProperties}
use xcron_protocol.Scheduler.Environment.{Env}
use xcron_protocol.Scheduler.State.{State, upgrade}
use xcron_protocol.Scheduler.Config.{
  pause, unpause, set_min_deposit, set_protocol_fee_bps, set_reveal_window, set_commit_bond,
  set_keeper_registry_addr, set_rewards_addr, set_xwap_address, set_xsc_address,
  set_zk_verifier_addr, set_max_reward_per_exec, set_max_exec_value, blacklist_target,
  remove_blacklist, register_keeper_shard, flush_protocol_fees, add_whitelisted_keeper,
  remove_whitelisted_keeper,
}
use xcron_protocol.Scheduler.Calls.{
  NumberSetting, AddressSetting, Call, dispatch_number, dispatch_address, dispatch, run,
}
use xcron_protocol.Scheduler.Funds.Books.{Covers, IsWithin}
use xcron_protocol.Scheduler.Funds.Tasks.{
  schedule_quantum_task-Covers, schedule_sovereign_task-Covers, cancel_quantum_task-Covers,
}
use xcron_protocol.Scheduler.Funds.Executions.{
  execution_callback-Covers, settle_xse_task-Covers, rescue_stuck_xse_task-Covers,
  execute_quantum_task-Covers,
}
use xcron_protocol.Scheduler.Funds.Keys.{
  authorize_clone_key-Covers, revoke_clone_key-Covers, fund_clone_key-Covers,
}
use xcron_protocol.Scheduler.Funds.Opening.{
  create_intent-Covers, create_multi_intent-Covers, create_pre_cognitive_intent-Covers,
}
use xcron_protocol.Scheduler.Funds.Closing.{
  cancel_intent-Covers, cancel_multi_intent-Covers, cancel_pre_cognitive_intent-Covers,
  solve_intent-Covers, solve_multi_intent-Covers, execute_pre_cognitive_leaf-Covers,
}

-- Every transaction but `executeCompressedTask`, which pays for a task that has no entry.
abbrev pub HasEntry : Call → Type 0
HasEntry (Call.execute_compressed task proof) = ⊥
HasEntry _ = Unit

abbrev pub AllHaveEntry : List (Ctx × Call) → Type 0
AllHaveEntry [] = Unit
AllHaveEntry ((c, call) ∷ calls) = HasEntry call × AllHaveEntry calls

module _ {S V : Type 0} where
  dispatch_number-Covers :
      (c : Ctx) (setting : NumberSetting) (n : ℕ) (s : State S V)
      → Covers 0 s
      → Ensures (Covers 0) (dispatch_number c setting n s)
  unfolding dispatch_number set_min_deposit set_protocol_fee_bps set_reveal_window set_commit_bond
      set_max_reward_per_exec set_max_exec_value
  dispatch_number-Covers c NumberSetting.min_deposit n s h = ground arith
  dispatch_number-Covers c NumberSetting.protocol_fee_bps n s h = ground arith
  dispatch_number-Covers c NumberSetting.reveal_window n s h = ground arith
  dispatch_number-Covers c NumberSetting.commit_bond n s h = ground arith
  dispatch_number-Covers c NumberSetting.max_reward_per_exec n s h = ground arith
  dispatch_number-Covers c NumberSetting.max_exec_value n s h = ground arith

module _ {S V : Type 0} ⦃sets : SetMapper S⦄ ⦃vecs : VecMapper V⦄ where
  dispatch_address-Covers :
      (c : Ctx) (setting : AddressSetting) (a : Address) (s : State S V)
      → Covers 0 s
      → Ensures (Covers 0) (dispatch_address c setting a s)
  unfolding dispatch_address set_keeper_registry_addr set_rewards_addr set_xwap_address
      set_xsc_address set_zk_verifier_addr blacklist_target remove_blacklist add_whitelisted_keeper
      remove_whitelisted_keeper
  dispatch_address-Covers c AddressSetting.keeper_registry a s h = ground arith
  dispatch_address-Covers c AddressSetting.rewards a s h = ground arith
  dispatch_address-Covers c AddressSetting.xwap a s h = ground arith
  dispatch_address-Covers c AddressSetting.xsc a s h = ground arith
  dispatch_address-Covers c AddressSetting.zk_verifier a s h = ground arith
  dispatch_address-Covers c AddressSetting.blacklist a s h = ground arith
  dispatch_address-Covers c AddressSetting.unblacklist a s h = ground arith
  dispatch_address-Covers c AddressSetting.add_keeper a s h = ground arith
  dispatch_address-Covers c AddressSetting.remove_keeper a s h = ground arith

  dispatch-Covers :
      (env : Env) (c : Ctx) (call : Call) (s : State S V)
      → HasEntry call
      → Covers 0 s
      → Ensures (Covers 0) (dispatch env c call s)
  unfolding dispatch flush_protocol_fees register_keeper_shard pause unpause upgrade direct_egld
  dispatch-Covers env c (Call.schedule task requested) s k h =
      schedule_quantum_task-Covers env c task requested s h
  dispatch-Covers env c (Call.schedule_sovereign payload requested) s k h =
      schedule_sovereign_task-Covers env c payload requested s h
  dispatch-Covers env c (Call.cancel_task hash) s k h = cancel_quantum_task-Covers c hash s h
  dispatch-Covers env c (Call.execute task secret) s k h =
      execute_quantum_task-Covers env c task secret s h
  dispatch-Covers env c (Call.execute_compressed task proof) s k h = absurd k
  dispatch-Covers env c (Call.callback hash target keeper b) s k h =
      execution_callback-Covers hash target keeper b s h
  dispatch-Covers env c (Call.settle hash proof) s k h = settle_xse_task-Covers env c hash proof s h
  dispatch-Covers env c (Call.rescue hash) s k h = rescue_stuck_xse_task-Covers c hash s h
  dispatch-Covers env c (Call.authorize_key clone ttl) s k h =
      authorize_clone_key-Covers c clone ttl s h
  dispatch-Covers env c (Call.revoke_key clone) s k h = revoke_clone_key-Covers c clone s h
  dispatch-Covers env c (Call.fund_key clone) s k h = fund_clone_key-Covers c clone s h
  dispatch-Covers env c (Call.open_intent token_out min_return deadline fee) s k h =
      create_intent-Covers c token_out min_return deadline fee s h
  dispatch-Covers env c (Call.cancel_single id) s k h = cancel_intent-Covers c id s h
  dispatch-Covers env c (Call.solve_single id) s k h = solve_intent-Covers c id s h
  dispatch-Covers env c (Call.open_multi outcomes deadline fee) s k h =
      create_multi_intent-Covers c outcomes deadline fee s h
  dispatch-Covers env c (Call.cancel_multi id) s k h = cancel_multi_intent-Covers c id s h
  dispatch-Covers env c (Call.solve_multi id) s k h = solve_multi_intent-Covers c id s h
  dispatch-Covers env c (Call.open_tree merkle_root deadline fee) s k h =
      create_pre_cognitive_intent-Covers c merkle_root deadline fee s h
  dispatch-Covers env c (Call.cancel_tree id) s k h = cancel_pre_cognitive_intent-Covers c id s h
  dispatch-Covers env c (Call.execute_leaf id proof leaf) s k h =
      execute_pre_cognitive_leaf-Covers env c id proof leaf s h
  dispatch-Covers env c (Call.set_number setting n) s k h = dispatch_number-Covers c setting n s h
  dispatch-Covers env c (Call.set_address setting a) s k h = dispatch_address-Covers c setting a s h
  dispatch-Covers env c _ s k h = ground arith

  -- After every sequence of transactions without `executeCompressedTask`, failed ones included, the
  -- EGLD of the Scheduler covers all that it owes, if it did before: the deposits of open tasks, the
  -- unspent budgets of Clone-Keys, the fees of pending intents, and the accrued protocol fees.
  pub run-Covers :
      (env : Env) (calls : List (Ctx × Call)) (s : State S V)
      → AllHaveEntry calls
      → Covers 0 s
      → Covers 0 (run env calls s)
  unfolding run
  run-Covers env [] s k h = h
  run-Covers env ((c, call) ∷ calls) s k h =
      run-Covers env calls (after s (dispatch env c call s)) k.1
        (ground (arith, dispatch-Covers env c call s k.0 h))

  -- Along the same sequences no Clone-Key ever spends more than its limit, nor has a limit above
  -- 2 EGLD.
  pub run_keys_within :
      (env : Env) (calls : List (Ctx × Call)) (s : State S V) (clone : Address)
      (props : CloneKeyProperties)
      → AllHaveEntry calls
      → Covers 0 s
      → lookup clone (run env calls s).clone_key_props ≡ some props
      → (props.spent_amount ≤ props.spend_limit) × (props.spend_limit ≤ 2 * 1000000000000000000)
  run_keys_within env calls s clone props k h e =
      AllValues-lookup IsWithin clone props (run env calls s).clone_key_props
        (run-Covers env calls s k h).keys_within e
