-- ===== src/KeeperRegistry/Staking.antt =====
-- Registration and unstaking: contracts/keeper-registry/src/lib.rs, `register_keeper` to
-- `withdraw_stake`.
use xcron_protocol.Prelude.{
  ℕ, ◌+◌, ◌-◌, ◌*◌, ◌/◌, Bool, true, false, not, leb, ltb, is_none, if◌then◌else◌, lookup, insert,
  erase, read,
}
use xcron_protocol.Framework.{
  Result, ok, ◌>>=◌, ◌>>◌, guard, or_abort, Ctx, Account, SetMapper, insert_item, swap_remove,
  receive, non_payable, direct_egld, sub_big, u64, decode_error, keeper_already_registered,
  stake_below_min, keeper_not_registered, keeper_not_active, must_unstake_first,
  cooldown_not_elapsed,
}
use xcron_protocol.Common.{
  KeeperInfo, bps_denominator, early_exit_penalty_bps, min_keeper_days_seconds,
}
use xcron_protocol.KeeperRegistry.State.{State, require_not_paused}

-- `*total -= x`, or zero where that would go below zero
abbrev pub release : ℕ → ℕ → ℕ
release total x = if leb x total then total - x else 0

abbrev pub new_keeper : Ctx → KeeperInfo
new_keeper c = record {
  addr = c.caller;
  stake = c.egld;
  registered_at = c.timestamp;
  total_executions = 0;
  successful_execs = 0;
  failed_execs = 0;
  slashed_amount = 0;
  active = true;
  consecutive_failures = 0;
}

-- The early exit penalty, 5% before 30 days: what goes to the treasury.
abbrev pub penalty_of : KeeperInfo → ℕ
penalty_of info = info.stake * early_exit_penalty_bps / bps_denominator

abbrev pub leaves_early : Ctx → KeeperInfo → Bool
leaves_early c info = ltb c.timestamp (u64 (info.registered_at + min_keeper_days_seconds))

module _ {S : Type 0} ⦃sets : SetMapper S⦄ where
  unfoldable pub register_keeper : Ctx → State S → Result (State S)
  register_keeper c s = do
    require_not_paused s
    guard (is_none (lookup c.caller s.keepers)) keeper_already_registered
    guard (leb s.min_stake c.egld) stake_below_min
    ok (record s {
      keepers = insert c.caller (new_keeper c) s.keepers;
      active_keeper_set = insert_item c.caller s.active_keeper_set;
      account = receive c s.account;
    })

  unfoldable pub add_stake : Ctx → State S → Result (State S)
  add_stake c s = do
    require_not_paused s
    info ← or_abort (lookup c.caller s.keepers) keeper_not_registered
    ok (record s {
      keepers = insert c.caller (record info { stake = info.stake + c.egld }) s.keepers;
      account = receive c s.account;
    })

  unfoldable pub request_unstake : Ctx → State S → Result (State S)
  request_unstake c s = do
    non_payable c
    require_not_paused s
    info ← or_abort (lookup c.caller s.keepers) decode_error
    guard info.active keeper_not_active
    ok (record s {
      keepers = insert c.caller (record info { active = false }) s.keepers;
      active_keeper_set = swap_remove c.caller s.active_keeper_set;
      unstake_request_time = insert c.caller c.timestamp s.unstake_request_time;
      total_committed_cooldown_egld = s.total_committed_cooldown_egld + info.stake;
    })

  -- What is left for the keeper, and the account after the treasury has been paid.
  unfoldable pub take_penalty : Ctx → KeeperInfo → State S → Result (ℕ × Account)
  take_penalty c info s =
      if leaves_early c info
      then (do
        amount ← sub_big info.stake (penalty_of info)
        treasury ← or_abort s.treasury_addr decode_error
        account ← direct_egld treasury (penalty_of info) s.account
        ok (amount, account))
      else ok (info.stake, s.account)

  unfoldable pub withdraw_stake : Ctx → State S → Result (State S)
  unfolding take_penalty
  withdraw_stake c s = do
    non_payable c
    info ← or_abort (lookup c.caller s.keepers) decode_error
    guard (not info.active) must_unstake_first
    guard (leb (u64 (read c.caller s.unstake_request_time + s.cooldown_seconds)) c.timestamp)
        cooldown_not_elapsed
    paid ← take_penalty c info s
    account ← direct_egld c.caller paid.0 paid.1
    ok (record s {
      total_committed_cooldown_egld = release s.total_committed_cooldown_egld info.stake;
      keepers = erase c.caller s.keepers;
      unstake_request_time = erase c.caller s.unstake_request_time;
      account = account;
    })
