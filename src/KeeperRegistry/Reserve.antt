-- ===== src/KeeperRegistry/Reserve.antt =====
-- The reserve for keepers in cooldown, `total_committed_cooldown_egld`, which `delegate_stake` leaves
-- in the balance.
use xcron_protocol.Prelude.{
  ℕ, ◌+◌, ◌-◌, ◌≤◌, ◌≡◌, false, some, ◌∷◌, arith, lookup, insert, read, lookup-insert,
}
use xcron_protocol.Framework.{
  Address, Ctx, Account, SetMapper, Ensures, Returns, u64, send_egld, direct_egld,
}
use xcron_protocol.Common.{KeeperInfo}
use xcron_protocol.KeeperRegistry.State.{State}
use xcron_protocol.KeeperRegistry.Staking.{add_stake, withdraw_stake, release}
use xcron_protocol.KeeperRegistry.Slashing.{
  slash_amount, strike_bps, failure_of, remove_if, is_expelled,
}
use xcron_protocol.KeeperRegistry.Delegation.{Provider, delegate_stake}

module _ {S : Type 0} (p : Provider) where
  -- A delegation that goes through leaves at least the reserve in the balance, and the reserve as it
  -- was, if the balance covered it before and the provider's call takes nothing beyond the amount
  -- that is sent with it.
  pub delegate_stake_keeps_reserve :
      (c : Ctx) (amount : ℕ) (s : State S)
      → ((n : ℕ) (a : Account) → Ensures (λ a'. a.balance ≤ a'.balance) (p.delegate n a))
      → s.total_committed_cooldown_egld ≤ s.account.balance
      → Ensures
          (λ s'.
            (s'.total_committed_cooldown_egld ≤ s'.account.balance)
            × (s'.total_committed_cooldown_egld ≡ s.total_committed_cooldown_egld))
          (delegate_stake p c amount s)
  unfolding delegate_stake
  delegate_stake_keeps_reserve c amount s adds h =
      ground (arith, adds amount (record s.account { balance = s.account.balance - amount }))

module _ {S : Type 0} ⦃sets : SetMapper S⦄ where
  -- The state after a failure of a keeper that is not in cooldown, with a liquid registry.
  abbrev struck : Address → Address → KeeperInfo → State S → State S
  struck keeper treasury info s =
      let amount = slash_amount info.stake (strike_bps (u64 (info.consecutive_failures + 1))) in
      record s {
        keepers = insert keeper (failure_of info s.min_stake) s.keepers;
        active_keeper_set = remove_if (is_expelled info s.min_stake) keeper s;
        account = record {
          balance = s.account.balance - amount;
          outbox = send_egld treasury amount ∷ s.account.outbox;
        };
      }

  -- Stake that is added during the cooldown is missing from the reserve, and is released from it all
  -- the same when the keeper withdraws: the reserve of the other keepers falls by it.
  pub top_up_drains_reserve :
      (c c' : Ctx) (treasury : Address) (info : KeeperInfo) (s : State S)
      → (c'.caller ≡ c.caller) × (c'.egld ≡ 0) × (s.paused ≡ false)
      → (lookup c.caller s.keepers ≡ some info) × (info.active ≡ false)
      → u64 (read c.caller s.unstake_request_time + s.cooldown_seconds) ≤ c'.timestamp
      → s.treasury_addr ≡ some treasury
      → info.stake ≤ s.account.balance
      → Returns
          (λ s1.
            Returns
              (λ s2.
                s2.total_committed_cooldown_egld
                ≡ release s.total_committed_cooldown_egld (info.stake + c.egld))
              (withdraw_stake c' s1))
          (add_stake c s)
  unfolding add_stake withdraw_stake direct_egld
  top_up_drains_reserve c c' treasury info s calm e cool te cover = ground (
    arith,
    lookup-insert c.caller c.caller (record info { stake = info.stake + c.egld }) s.keepers,
  )
