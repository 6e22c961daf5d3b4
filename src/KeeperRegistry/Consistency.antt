-- ===== src/KeeperRegistry/Consistency.antt =====
-- What holds of each address in the KeeperRegistry, whatever is called.
use xcron_protocol.Prelude.{
  ℕ, ◌≡◌, ◌<◌, ◌+◌, ◌-◌, ltb, inl, inr, Option-cases, Bool, true, false, Option, none, some, arith,
  lookup, read, lookup-insert, lookup-erase, read-insert, read-erase,
}
use xcron_protocol.Framework.{Address, Ctx, SetMapper, contains, Ensures}
use xcron_protocol.Common.{KeeperInfo, max_strikes}
use xcron_protocol.KeeperRegistry.State.{State}
use xcron_protocol.KeeperRegistry.Staking
use xcron_protocol.KeeperRegistry.Staking.{
  register_keeper, add_stake, request_unstake, withdraw_stake, take_penalty,
}
use xcron_protocol.KeeperRegistry.Slashing.{
  slash_keeper, record_execution, record_failure, settle_slash, slash_amount, expel_if, take_slash,
  success_of, failure_of,
}

abbrev pub active_at : Option KeeperInfo → Bool
active_at none = false
active_at (some info) = info.active

abbrev pub strikes_at : Option KeeperInfo → ℕ
strikes_at none = 0
strikes_at (some info) = info.consecutive_failures

module _ {S : Type 0} ⦃sets : SetMapper S⦄ where
  -- The set of active keepers mirrors the flag of the records; a request to unstake is pending only
  -- for a registered keeper that is not active, and its strikes are below the limit while it is active.
  pub record IsConsistent (a : Address) (s : State S) : Type 0 where
    pub set_matches : contains a s.active_keeper_set ≡ active_at (lookup a s.keepers)
    pub active_not_leaving :
        active_at (lookup a s.keepers) ≡ true → read a s.unstake_request_time ≡ 0
    pub unknown_not_leaving : lookup a s.keepers ≡ none → read a s.unstake_request_time ≡ 0
    pub active_below_strikes :
        active_at (lookup a s.keepers) ≡ true → strikes_at (lookup a s.keepers) < max_strikes

  pub register_keeper-IsConsistent :
      (c : Ctx) (a : Address) (s : State S)
      → IsConsistent a s
      → Ensures (IsConsistent a) (register_keeper c s)
  unfolding register_keeper
  register_keeper-IsConsistent c a s h = ground (
    arith,
    lookup-insert c.caller a (Staking.new_keeper c) s.keepers,
    sets.contains-insert c.caller a s.active_keeper_set,
  )

  pub add_stake-IsConsistent :
      (c : Ctx) (a : Address) (s : State S)
      → IsConsistent a s
      → Ensures (IsConsistent a) (add_stake c s)
  unfolding add_stake
  add_stake-IsConsistent c a s h = elim (Option-cases (lookup c.caller s.keepers)) [
    | inl e ↦ ground (arith, e)
    | inr (info, e) ↦
        ground (
          arith,
          e,
          lookup-insert c.caller a (record info { stake = info.stake + c.egld }) s.keepers,
        )
  ]

  pub request_unstake-IsConsistent :
      (c : Ctx) (a : Address) (s : State S)
      → IsConsistent a s
      → Ensures (IsConsistent a) (request_unstake c s)
  unfolding request_unstake
  request_unstake-IsConsistent c a s h = elim (Option-cases (lookup c.caller s.keepers)) [
    | inl e ↦ ground (arith, e)
    | inr (info, e) ↦ ground (
      arith,
      e,
      lookup-insert c.caller a (record info { active = false }) s.keepers,
      read-insert c.caller a c.timestamp s.unstake_request_time,
      sets.contains-swap_remove c.caller a s.active_keeper_set,
    )
  ]

  pub withdraw_stake-IsConsistent :
      (c : Ctx) (a : Address) (s : State S)
      → IsConsistent a s
      → Ensures (IsConsistent a) (withdraw_stake c s)
  unfolding withdraw_stake
  withdraw_stake-IsConsistent c a s h =
      ground
        (arith, lookup-erase c.caller a s.keepers, read-erase c.caller a s.unstake_request_time)

  pub settle_slash-IsConsistent :
      (keeper amount treasury provider a : ℕ) (s : State S)
      → IsConsistent a s
      → Ensures (IsConsistent a) (settle_slash keeper amount treasury provider s)
  unfolding settle_slash
  settle_slash-IsConsistent keeper amount treasury provider a s h = ground arith

  pub slash_keeper-IsConsistent :
      (c : Ctx) (keeper a : Address) (s : State S)
      → IsConsistent a s
      → Ensures (IsConsistent a) (slash_keeper c keeper s)
  unfolding slash_keeper settle_slash
  slash_keeper-IsConsistent c keeper a s h = elim (Option-cases (lookup keeper s.keepers)) [
    | inl e ↦ ground (arith, e)
    | inr (info, e) ↦
        let amount = slash_amount info.stake s.slash_pct_bps in
        let slashed = expel_if (ltb (info.stake - amount) s.min_stake) (take_slash amount info) in
        ground (
          arith,
          e,
          lookup-insert keeper a slashed s.keepers,
          sets.contains-swap_remove keeper a s.active_keeper_set,
        )
  ]

  pub record_failure-IsConsistent :
      (keeper a : Address) (info : KeeperInfo) (s : State S)
      → lookup keeper s.keepers ≡ some info
      → IsConsistent a s
      → Ensures (IsConsistent a) (record_failure keeper info s)
  unfolding record_failure settle_slash
  record_failure-IsConsistent keeper a info s e h =
      let slashed = failure_of info s.min_stake in
      ground (
        arith,
        lookup-insert keeper a slashed s.keepers,
        sets.contains-swap_remove keeper a s.active_keeper_set,
      )

  pub record_execution-IsConsistent :
      (c : Ctx) (keeper : Address) (success : Bool) (a : Address) (s : State S)
      → IsConsistent a s
      → Ensures (IsConsistent a) (record_execution c keeper success s)
  unfolding record_execution
  record_execution-IsConsistent c keeper success a s h =
      elim (Option-cases (lookup keeper s.keepers)) [
        | inl e ↦ ground (arith, e)
        | inr (info, e) ↦ ground (
          arith,
          e,
          record_failure-IsConsistent keeper a info s,
          lookup-insert keeper a (success_of info) s.keepers,
        )
      ]
