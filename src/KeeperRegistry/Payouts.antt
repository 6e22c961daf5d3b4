-- ===== src/KeeperRegistry/Payouts.antt =====
-- What leaving costs: the EGLD that moves, to whom, and when.
use xcron_protocol.Prelude.{
  ℕ, ◌+◌, ◌-◌, ◌/◌, ◌%◌, ◌^◌, ◌≤◌, ◌≡◌, ◌≢◌, false, none, some, arith, ◌∷◌, lookup, erase,
  lookup-erase, read, ltb, if◌then◌else◌,
}
use xcron_protocol.Framework.{
  ok, Address, Ctx, Account, SetMapper, Returns, is_ok, paid_to, send_egld, u64, direct_egld,
}
use xcron_protocol.Common.{KeeperInfo}
use xcron_protocol.KeeperRegistry.State.{State}
use xcron_protocol.KeeperRegistry.Staking.{withdraw_stake, leaves_early, penalty_of, release}

penalty_le : (info : KeeperInfo) → penalty_of info ≤ info.stake
penalty_le info = omega arith

-- What leaving at a time costs: a twentieth of the stake, rounded down, in the first 30 days, 2592000
-- seconds, after the registration, and nothing later. The end of the 30 days is in `u64`.
abbrev pub exit_cost : (time : ℕ) → KeeperInfo → ℕ
exit_cost time info =
    if ltb time ((info.registered_at + 2592000) % 2 ^ 64) then info.stake / 20 else 0

module _ {S : Type 0} ⦃sets : SetMapper S⦄ where
  -- The stake was divided between the keeper and the treasury, and the keeper is gone.
  pub record Leaves (keeper treasury : Address) (stake cost : ℕ) (s s' : State S) : Type 0 where
    pub to_keeper :
        paid_to keeper s'.account.outbox ≡ paid_to keeper s.account.outbox + (stake - cost)
    pub to_treasury : paid_to treasury s'.account.outbox ≡ paid_to treasury s.account.outbox + cost
    pub spent : s'.account.balance + stake ≡ s.account.balance
    pub gone : lookup keeper s'.keepers ≡ none

  -- What `withdraw_stake` leaves behind when it pays the whole stake, or the stake less the penalty.
  abbrev pub paid_out : Ctx → KeeperInfo → Address → State S → Account
  paid_out c info treasury s =
      let a = s.account in
      if leaves_early c info
      then record {
        balance = a.balance - info.stake;
        outbox =
            send_egld c.caller (info.stake - penalty_of info)
            ∷ send_egld treasury (penalty_of info)
            ∷ a.outbox;
      }
      else record {
        balance = a.balance - info.stake;
        outbox = send_egld c.caller info.stake ∷ a.outbox;
      }

  abbrev pub withdrawn : Ctx → KeeperInfo → Address → State S → State S
  withdrawn c info treasury s = record s {
    total_committed_cooldown_egld = release s.total_committed_cooldown_egld info.stake;
    keepers = erase c.caller s.keepers;
    unstake_request_time = erase c.caller s.unstake_request_time;
    account = paid_out c info treasury s;
  }

  -- The state after a withdrawal that passes every check.
  pub withdraw_stake-withdrawn :
      (c : Ctx) (info : KeeperInfo) (treasury : Address) (s : State S)
      → c.egld ≡ 0
      → lookup c.caller s.keepers ≡ some info
      → info.active ≡ false
      → u64 (read c.caller s.unstake_request_time + s.cooldown_seconds) ≤ c.timestamp
      → s.treasury_addr ≡ some treasury
      → info.stake ≤ s.account.balance
      → withdraw_stake c s ≡ ok (withdrawn c info treasury s)
  unfolding withdraw_stake direct_egld
  withdraw_stake-withdrawn c info treasury s free e inactive cool te cover = ground arith

  withdraw_unknown :
      (c : Ctx) (s : State S)
      → lookup c.caller s.keepers ≡ none
      → is_ok (withdraw_stake c s) ≡ false
  unfolding withdraw_stake
  withdraw_unknown c s e = ground (arith, e)

  -- A keeper that is inactive, past its cooldown and covered by the balance can always withdraw, once,
  -- where the treasury is another address: it is sent its stake, less a twentieth for the treasury in
  -- the first 30 days, the balance falls by exactly the stake, and no later withdrawal of the keeper
  -- succeeds in the state that this leaves.
  pub withdraw_stake_pays :
      (c : Ctx) (info : KeeperInfo) (treasury : Address) (s : State S)
      → c.egld ≡ 0
      → lookup c.caller s.keepers ≡ some info
      → info.active ≡ false
      → (read c.caller s.unstake_request_time + s.cooldown_seconds) % 2 ^ 64 ≤ c.timestamp
      → s.treasury_addr ≡ some treasury
      → treasury ≢ c.caller
      → info.stake ≤ s.account.balance
      → Returns
          (λ s'.
            Leaves c.caller treasury info.stake (exit_cost c.timestamp info) s s'
            × ((c' : Ctx) → c'.caller ≡ c.caller → is_ok (withdraw_stake c' s') ≡ false))
          (withdraw_stake c s)
  withdraw_stake_pays c info treasury s free e inactive cool te other cover =
      let gone = lookup-erase c.caller c.caller s.keepers in
      rw (withdraw_stake-withdrawn c info treasury s free e inactive cool te cover) (
        ground (arith, other, cover),
        λ c' same. withdraw_unknown c' (withdrawn c info treasury s) (ground (arith, gone, same)),
      )
