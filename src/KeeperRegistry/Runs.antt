-- ===== src/KeeperRegistry/Runs.antt =====
-- Consistency along every run of the KeeperRegistry.
use xcron_protocol.Prelude.{List, [], ◌∷◌, arith}
use xcron_protocol.Framework.{after, Address, Ctx, SetMapper, Ensures}
use xcron_protocol.KeeperRegistry.State.{
  State, pause, unpause, upgrade, set_min_stake, set_slash_pct_bps, set_cooldown_seconds,
  set_treasury_addr, add_authorized_caller, remove_authorized_caller, set_staking_provider,
}
use xcron_protocol.KeeperRegistry.Delegation.{
  Provider, delegate_stake, undelegate_stake, claim_provider_rewards, withdraw_provider_stake,
  sweep_slashed_debt, forward_yield,
}
use xcron_protocol.KeeperRegistry.Calls.{Call, dispatch, run}
use xcron_protocol.KeeperRegistry.Consistency.{
  IsConsistent, register_keeper-IsConsistent, add_stake-IsConsistent, request_unstake-IsConsistent,
  withdraw_stake-IsConsistent, slash_keeper-IsConsistent, record_execution-IsConsistent,
}

module _ {S : Type 0} ⦃sets : SetMapper S⦄ (p : Provider) where
  dispatch-IsConsistent :
      (c : Ctx) (call : Call) (a : Address) (s : State S)
      → IsConsistent a s
      → Ensures (IsConsistent a) (dispatch p c call s)
  unfolding dispatch pause unpause upgrade set_min_stake set_slash_pct_bps set_cooldown_seconds
      set_treasury_addr add_authorized_caller remove_authorized_caller set_staking_provider
      delegate_stake undelegate_stake claim_provider_rewards withdraw_provider_stake
      sweep_slashed_debt forward_yield
  dispatch-IsConsistent c Call.register a s h = register_keeper-IsConsistent c a s h
  dispatch-IsConsistent c Call.add a s h = add_stake-IsConsistent c a s h
  dispatch-IsConsistent c Call.request_unstake_call a s h = request_unstake-IsConsistent c a s h
  dispatch-IsConsistent c Call.withdraw_call a s h = withdraw_stake-IsConsistent c a s h
  dispatch-IsConsistent c (Call.slash k) a s h = slash_keeper-IsConsistent c k a s h
  dispatch-IsConsistent c (Call.record_result k b) a s h = record_execution-IsConsistent c k b a s h
  dispatch-IsConsistent c _ a s h = ground arith

  after-IsConsistent :
      (c : Ctx) (call : Call) (a : Address) (s : State S)
      → IsConsistent a s
      → IsConsistent a (after s (dispatch p c call s))
  after-IsConsistent c call a s h = ground (arith, dispatch-IsConsistent c call a s h)

  -- Whatever transactions are sent, by whomever and in any order, each address stays consistent: the
  -- set of active keepers mirrors the `active` flags, only a registered and inactive keeper has a
  -- pending request to unstake, and no active keeper has three consecutive failures.
  pub run-IsConsistent :
      (calls : List (Ctx × Call)) (a : Address) (s : State S)
      → IsConsistent a s
      → IsConsistent a (run p calls s)
  unfolding run
  run-IsConsistent [] a s h = h
  run-IsConsistent ((c, call) ∷ calls) a s h =
      run-IsConsistent calls a (after s (dispatch p c call s)) (after-IsConsistent c call a s h)
