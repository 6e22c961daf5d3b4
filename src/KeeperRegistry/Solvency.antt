-- ===== src/KeeperRegistry/Solvency.antt =====
-- While no staking provider is configured, the registry's balance covers every stake.
use xcron_protocol.Prelude.{
  ℕ, ◌+◌, ◌-◌, ◌≤◌, ◌≡◌, Bool, false, some, List, [], ◌∷◌, arith, lookup, ltb, inl, inr,
  Option-cases, Distinct, Distinct-insert, Distinct-erase, total, total-insert, total-erase,
}
use xcron_protocol.Framework.{after, Address, Ctx, SetMapper, Ensures, direct_egld, u64}
use xcron_protocol.Common.{KeeperInfo}
use xcron_protocol.KeeperRegistry.State.{
  State, pause, unpause, upgrade, set_min_stake, set_slash_pct_bps, set_cooldown_seconds,
  set_treasury_addr, add_authorized_caller, remove_authorized_caller, set_staking_provider,
}
use xcron_protocol.KeeperRegistry.Staking.{
  register_keeper, add_stake, request_unstake, withdraw_stake, new_keeper,
}
use xcron_protocol.KeeperRegistry.Slashing.{
  slash_keeper, record_execution, record_failure, settle_slash, slash_amount, strike_bps, expel_if,
  take_slash, success_of, failure_of, or_zero,
}
use xcron_protocol.KeeperRegistry.Delegation.{
  Provider, delegate_stake, undelegate_stake, claim_provider_rewards, withdraw_provider_stake,
  sweep_slashed_debt,
}
use xcron_protocol.KeeperRegistry.Calls.{Call, dispatch, run}
use xcron_protocol.KeeperRegistry.Strikes.{slash_amount_le}

abbrev pub stake_of : KeeperInfo → ℕ
stake_of info = info.stake

module _ {S : Type 0} where
  pub record IsSolvent (s : State S) : Type 0 where
    pub distinct : Distinct s.keepers
    pub covered : total stake_of s.keepers ≤ s.account.balance
    pub no_provider : or_zero s.staking_provider_addr ≡ 0
    pub no_debt : s.slashed_pending_unbond ≡ []

module _ {S : Type 0} ⦃sets : SetMapper S⦄ where
  register_keeper-IsSolvent :
      (c : Ctx) (s : State S) → IsSolvent s → Ensures IsSolvent (register_keeper c s)
  unfolding register_keeper
  register_keeper-IsSolvent c s h = ground (
    arith,
    Distinct-insert c.caller (new_keeper c) s.keepers h.distinct,
    total-insert stake_of c.caller (new_keeper c) s.keepers,
  )

  add_stake-IsSolvent : (c : Ctx) (s : State S) → IsSolvent s → Ensures IsSolvent (add_stake c s)
  unfolding add_stake
  add_stake-IsSolvent c s h = elim (Option-cases (lookup c.caller s.keepers)) [
    | inl e ↦ ground (arith, e)
    | inr (info, e) ↦
        let info' = record info { stake = info.stake + c.egld } in
        ground (
          arith,
          e,
          Distinct-insert c.caller info' s.keepers h.distinct,
          total-insert stake_of c.caller info' s.keepers,
        )
  ]

  request_unstake-IsSolvent :
      (c : Ctx) (s : State S) → IsSolvent s → Ensures IsSolvent (request_unstake c s)
  unfolding request_unstake
  request_unstake-IsSolvent c s h = elim (Option-cases (lookup c.caller s.keepers)) [
    | inl e ↦ ground (arith, e)
    | inr (info, e) ↦
        let info' = record info { active = false } in
        ground (
          arith,
          e,
          Distinct-insert c.caller info' s.keepers h.distinct,
          total-insert stake_of c.caller info' s.keepers,
        )
  ]

  withdraw_stake-IsSolvent :
      (c : Ctx) (s : State S) → IsSolvent s → Ensures IsSolvent (withdraw_stake c s)
  unfolding withdraw_stake direct_egld
  withdraw_stake-IsSolvent c s h = ground (
    arith,
    Distinct-erase c.caller s.keepers h.distinct,
    total-erase stake_of c.caller s.keepers h.distinct,
  )

  slash_keeper-IsSolvent :
      (c : Ctx) (keeper : Address) (s : State S)
      → IsSolvent s
      → Ensures IsSolvent (slash_keeper c keeper s)
  unfolding slash_keeper settle_slash direct_egld
  slash_keeper-IsSolvent c keeper s h = elim (Option-cases (lookup keeper s.keepers)) [
    | inl e ↦ ground (arith, e)
    | inr (info, e) ↦
        let amount = slash_amount info.stake s.slash_pct_bps in
        let slashed = expel_if (ltb (info.stake - amount) s.min_stake) (take_slash amount info) in
        ground (
          arith,
          e,
          slash_amount_le info.stake s.slash_pct_bps,
          Distinct-insert keeper slashed s.keepers h.distinct,
          total-insert stake_of keeper slashed s.keepers,
        )
  ]

  record_failure-IsSolvent :
      (keeper : Address) (info : KeeperInfo) (s : State S)
      → lookup keeper s.keepers ≡ some info
      → IsSolvent s
      → Ensures IsSolvent (record_failure keeper info s)
  unfolding record_failure settle_slash direct_egld
  record_failure-IsSolvent keeper info s e h =
      let slashed = failure_of info s.min_stake in
      ground (
        arith,
        slash_amount_le info.stake (strike_bps (u64 (info.consecutive_failures + 1))),
        Distinct-insert keeper slashed s.keepers h.distinct,
        total-insert stake_of keeper slashed s.keepers,
      )

  record_execution-IsSolvent :
      (c : Ctx) (keeper : Address) (success : Bool) (s : State S)
      → IsSolvent s
      → Ensures IsSolvent (record_execution c keeper success s)
  unfolding record_execution
  record_execution-IsSolvent c keeper success s h = elim (Option-cases (lookup keeper s.keepers)) [
    | inl e ↦ ground (arith, e)
    | inr (info, e) ↦ ground (
      arith,
      e,
      record_failure-IsSolvent keeper info s,
      Distinct-insert keeper (success_of info) s.keepers h.distinct,
      total-insert stake_of keeper (success_of info) s.keepers,
    )
  ]

-- Every transaction but `setStakingProvider`.
abbrev pub KeepsProvider : Call → Type 0
KeepsProvider (Call.provider_call addr) = ⊥
KeepsProvider _ = Unit

abbrev pub AllKeepProvider : List (Ctx × Call) → Type 0
AllKeepProvider [] = Unit
AllKeepProvider ((c, call) ∷ calls) = KeepsProvider call × AllKeepProvider calls

module _ {S : Type 0} ⦃sets : SetMapper S⦄ (p : Provider) where
  dispatch-IsSolvent :
      (c : Ctx) (call : Call) (s : State S)
      → KeepsProvider call
      → IsSolvent s
      → Ensures IsSolvent (dispatch p c call s)
  unfolding dispatch pause unpause upgrade set_min_stake set_slash_pct_bps set_cooldown_seconds
      set_treasury_addr add_authorized_caller remove_authorized_caller set_staking_provider
      delegate_stake undelegate_stake claim_provider_rewards withdraw_provider_stake
      sweep_slashed_debt
  dispatch-IsSolvent c Call.register s k h = register_keeper-IsSolvent c s h
  dispatch-IsSolvent c Call.add s k h = add_stake-IsSolvent c s h
  dispatch-IsSolvent c Call.request_unstake_call s k h = request_unstake-IsSolvent c s h
  dispatch-IsSolvent c Call.withdraw_call s k h = withdraw_stake-IsSolvent c s h
  dispatch-IsSolvent c (Call.slash keeper) s k h = slash_keeper-IsSolvent c keeper s h
  dispatch-IsSolvent c (Call.record_result keeper b) s k h =
      record_execution-IsSolvent c keeper b s h
  dispatch-IsSolvent c (Call.provider_call addr) s k h = absurd k
  dispatch-IsSolvent c _ s k h = ground arith

  -- As long as no staking provider is set, the balance covers the sum of all stakes after every
  -- sequence of transactions, failed ones included, if it did before.
  pub run-IsSolvent :
      (calls : List (Ctx × Call)) (s : State S)
      → AllKeepProvider calls
      → IsSolvent s
      → IsSolvent (run p calls s)
  unfolding run
  run-IsSolvent [] s k h = h
  run-IsSolvent ((c, call) ∷ calls) s k h =
      run-IsSolvent calls (after s (dispatch p c call s)) k.1
        (ground (arith, dispatch-IsSolvent c call s k.0 h))
