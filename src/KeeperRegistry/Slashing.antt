-- ===== src/KeeperRegistry/Slashing.antt =====
-- Slashing and reputation: contracts/keeper-registry/src/lib.rs, `slash_keeper` and
-- `record_execution`.
use xcron_protocol.Prelude.{
  ℕ, ◌+◌, ◌-◌, ◌*◌, ◌/◌, Bool, false, not, ◌&&◌, ◌||◌, Option, none, some, leb, ltb, ◌==◌,
  if◌then◌else◌, lookup, insert, read,
}
use xcron_protocol.Framework.{
  Result, ok, ◌>>=◌, ◌>>◌, or_abort, Address, Ctx, SetMapper, swap_remove, non_payable, direct_egld,
  is_zero, u64, decode_error,
}
use xcron_protocol.Common.{
  KeeperInfo, bps_denominator, slash_strike_1_bps, slash_strike_2_bps, slash_strike_3_bps,
  max_strikes,
}
use xcron_protocol.KeeperRegistry.State.{State, require_authorized_caller}
use xcron_protocol.KeeperRegistry.Staking.{release}

-- The part of a stake that a rate in basis points takes.
unfoldable pub slash_amount : ℕ → ℕ → ℕ
slash_amount stake bps =
    let calculated = stake * bps / bps_denominator in
    if ltb calculated stake then calculated else stake

unfoldable pub strike_bps : ℕ → ℕ
strike_bps failures =
    if failures == 1
    then slash_strike_1_bps
    else (if failures == 2 then slash_strike_2_bps else slash_strike_3_bps)

-- `info.stake -= &slash_amount; info.slashed_amount += &slash_amount`
abbrev pub take_slash : ℕ → KeeperInfo → KeeperInfo
take_slash amount info = record info {
  stake = info.stake - amount;
  slashed_amount = info.slashed_amount + amount;
}

-- An address that was never stored counts as the zero address, where the code tests `is_empty`.
abbrev pub or_zero : Option Address → Address
or_zero none = 0
or_zero (some a) = a

-- `info.active = false`, where `out` holds.
abbrev pub expel_if : Bool → KeeperInfo → KeeperInfo
expel_if out info = record info { active = if out then false else info.active }

-- The record of a keeper after a success, which ends a run of failures.
abbrev pub success_of : KeeperInfo → KeeperInfo
success_of info = record info {
  total_executions = u64 (info.total_executions + 1);
  successful_execs = u64 (info.successful_execs + 1);
  consecutive_failures = 0;
}

-- The third strike, or a stake below three quarters of the minimum, ends a keeper's service.
abbrev pub is_expelled : KeeperInfo → ℕ → Bool
is_expelled info min_stake =
    let failures = u64 (info.consecutive_failures + 1) in
    leb max_strikes failures
    || ltb (info.stake - slash_amount info.stake (strike_bps failures)) (min_stake * 75 / 100)

-- The record of a keeper after a failure.
abbrev pub failure_of : KeeperInfo → ℕ → KeeperInfo
failure_of info min_stake =
    let failures = u64 (info.consecutive_failures + 1) in
    expel_if (is_expelled info min_stake) (
      take_slash (slash_amount info.stake (strike_bps failures)) (record info {
        total_executions = u64 (info.total_executions + 1);
        failed_execs = u64 (info.failed_execs + 1);
        consecutive_failures = failures;
      }))

module _ {S : Type 0} ⦃sets : SetMapper S⦄ where
  abbrev pub remove_if : Bool → Address → State S → S
  remove_if out keeper s =
      if out then swap_remove keeper s.active_keeper_set else s.active_keeper_set

  -- A keeper that is slashed during its cooldown lowers the reserve for pending withdrawals.
  abbrev pub lower_reserve : Address → KeeperInfo → ℕ → State S → ℕ
  lower_reserve keeper info amount s =
      if not info.active && not (read keeper s.unstake_request_time == 0)
      then release s.total_committed_cooldown_egld amount
      else s.total_committed_cooldown_egld

  -- The slashed EGLD goes to the treasury, or becomes a debt while the stakes are delegated.
  unfoldable pub settle_slash : Address → ℕ → Address → Address → State S → Result (State S)
  settle_slash keeper amount treasury provider s =
      if is_zero provider
      then (do account ← direct_egld treasury amount s.account; ok (record s { account = account }))
      else ok (record s {
        slashed_pending_unbond =
            insert keeper (read keeper s.slashed_pending_unbond + amount) s.slashed_pending_unbond;
      })

  unfoldable pub slash_keeper : Ctx → Address → State S → Result (State S)
  slash_keeper c keeper s = do
    non_payable c
    require_authorized_caller c s
    info ← or_abort (lookup keeper s.keepers) decode_error
    let amount = slash_amount info.stake s.slash_pct_bps
    let out = ltb (info.stake - amount) s.min_stake
    let slashed = expel_if out (take_slash amount info)
    treasury ← or_abort s.treasury_addr decode_error
    settle_slash keeper amount treasury (or_zero s.staking_provider_addr) (record s {
      keepers = insert keeper slashed s.keepers;
      active_keeper_set = remove_if out keeper s;
      total_committed_cooldown_egld = lower_reserve keeper slashed amount s;
    })

  unfoldable pub record_failure : Address → KeeperInfo → State S → Result (State S)
  record_failure keeper info s = do
    let amount = slash_amount info.stake (strike_bps (u64 (info.consecutive_failures + 1)))
    treasury ← or_abort s.treasury_addr decode_error
    provider ← or_abort s.staking_provider_addr decode_error
    let slashed = failure_of info s.min_stake
    settle_slash keeper amount treasury provider (record s {
      keepers = insert keeper slashed s.keepers;
      active_keeper_set = remove_if (is_expelled info s.min_stake) keeper s;
      total_committed_cooldown_egld = lower_reserve keeper slashed amount s;
    })

  unfoldable pub record_execution : Ctx → Address → Bool → State S → Result (State S)
  record_execution c keeper success s = do
    non_payable c
    require_authorized_caller c s
    info ← or_abort (lookup keeper s.keepers) decode_error
    if success
        then ok (record s { keepers = insert keeper (success_of info) s.keepers })
        else record_failure keeper info s
