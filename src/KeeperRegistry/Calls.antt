-- ===== src/KeeperRegistry/Calls.antt =====
-- The transactions that the KeeperRegistry accepts, as data: what any caller may send, in any order.
use xcron_protocol.Prelude.{ℕ, Bool, List, [], ◌∷◌}
use xcron_protocol.Framework.{Result, ok, after, Address, Ctx, SetMapper}
use xcron_protocol.KeeperRegistry.State.{
  State, pause, unpause, upgrade, set_min_stake, set_slash_pct_bps, set_cooldown_seconds,
  set_treasury_addr, add_authorized_caller, remove_authorized_caller, set_staking_provider,
}
use xcron_protocol.KeeperRegistry.Staking.{
  register_keeper, add_stake, request_unstake, withdraw_stake,
}
use xcron_protocol.KeeperRegistry.Slashing.{slash_keeper, record_execution}
use xcron_protocol.KeeperRegistry.Delegation.{
  Provider, delegate_stake, undelegate_stake, claim_provider_rewards, withdraw_provider_stake,
  sweep_slashed_debt,
}

pub data Call : Type 0 where
  register add request_unstake_call withdraw_call : Call
  slash : (keeper : Address) → Call
  record_result : (keeper : Address) (success : Bool) → Call
  delegate_call undelegate_call : (amount : ℕ) → Call
  claim_yield withdraw_unbonded : Call
  sweep_debt : (keeper : Address) → Call
  pause_call unpause_call upgrade_call : Call
  min_stake_call slash_pct_call cooldown_call : (value : ℕ) → Call
  treasury_call authorize_call deauthorize_call provider_call : (addr : Address) → Call

module _ {S : Type 0} ⦃sets : SetMapper S⦄ (p : Provider) where
  unfoldable pub dispatch : Ctx → Call → State S → Result (State S)
  dispatch c register s = register_keeper c s
  dispatch c add s = add_stake c s
  dispatch c request_unstake_call s = request_unstake c s
  dispatch c withdraw_call s = withdraw_stake c s
  dispatch c (slash keeper) s = slash_keeper c keeper s
  dispatch c (record_result keeper success) s = record_execution c keeper success s
  dispatch c (delegate_call amount) s = delegate_stake p c amount s
  dispatch c (undelegate_call amount) s = undelegate_stake p c amount s
  dispatch c claim_yield s = claim_provider_rewards p c s
  dispatch c withdraw_unbonded s = withdraw_provider_stake p c s
  dispatch c (sweep_debt keeper) s = sweep_slashed_debt c keeper s
  dispatch c pause_call s = pause c s
  dispatch c unpause_call s = unpause c s
  dispatch c upgrade_call s = ok (upgrade s)
  dispatch c (min_stake_call value) s = set_min_stake c value s
  dispatch c (slash_pct_call value) s = set_slash_pct_bps c value s
  dispatch c (cooldown_call value) s = set_cooldown_seconds c value s
  dispatch c (treasury_call addr) s = set_treasury_addr c addr s
  dispatch c (authorize_call addr) s = add_authorized_caller c addr s
  dispatch c (deauthorize_call addr) s = remove_authorized_caller c addr s
  dispatch c (provider_call addr) s = set_staking_provider c addr s

  -- A sequence of transactions.
  unfoldable pub run : List (Ctx × Call) → State S → State S
  run [] s = s
  run ((c, call) ∷ calls) s = run calls (after s (dispatch c call s))
