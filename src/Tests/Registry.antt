-- ===== src/Tests/Registry.antt =====
-- The theorems on the KeeperRegistry at concrete states.
use xcron_protocol.Prelude.{ℕ, ◌≤◌, ◌≡◌, refl, Bool, true, false, none, some, List, [], ◌∷◌, arith}
use xcron_protocol.Framework.{ok, is_ok, Ctx, Returns, Ensures, send_egld, direct_egld}
use xcron_protocol.Common.{KeeperInfo}
use xcron_protocol.KeeperRegistry.State.{State, is_active_keeper, get_keeper_stake}
use xcron_protocol.KeeperRegistry.Staking.{take_penalty, withdraw_stake}
use xcron_protocol.KeeperRegistry.Slashing.{failure_of}
use xcron_protocol.KeeperRegistry.Delegation.{delegate_stake}
use xcron_protocol.KeeperRegistry.Calls.{Call, run}
use xcron_protocol.KeeperRegistry.Consistency.{IsConsistent}
use xcron_protocol.KeeperRegistry.Runs.{run-IsConsistent}
use xcron_protocol.KeeperRegistry.Solvency.{IsSolvent, run-IsSolvent}
use xcron_protocol.KeeperRegistry.Payouts.{Leaves, withdraw_stake_pays}
use xcron_protocol.KeeperRegistry.Strikes.{failure_of_strikes}
use xcron_protocol.KeeperRegistry.Reserve.{delegate_stake_keeps_reserve}
use xcron_protocol.Tests.Models.{bit_set, idle_provider, by_owner, as_caller, account_of}

abbrev Registry : Type 0
Registry = State (List Bool)

abbrev new_registry : Registry
new_registry = record {
  keepers = [];
  active_keeper_set = [];
  unstake_request_time = [];
  min_stake = 0;
  slash_pct_bps = 0;
  cooldown_seconds = 0;
  treasury_addr = none;
  authorized_callers = [];
  version = 0;
  staking_provider_addr = none;
  total_yield_generated = 0;
  slashed_pending_unbond = [];
  total_committed_cooldown_egld = 0;
  paused = false;
  account = account_of 0;
}

abbrev member : Bool → ℕ → KeeperInfo
member active failures = record {
  addr = 3;
  stake = 1000;
  registered_at = 10;
  total_executions = 0;
  successful_execs = 0;
  failed_execs = 0;
  slashed_amount = 0;
  active = active;
  consecutive_failures = failures;
}

-- Keeper 3 has staked 1000; the treasury is 6, and no provider is set.
abbrev with_keeper : Bool → ℕ → Registry
with_keeper active failures = record new_registry {
  keepers = (3, member active failures) ∷ [];
  active_keeper_set = false ∷ false ∷ false ∷ active ∷ [];
  min_stake = 500;
  slash_pct_bps = 1000;
  cooldown_seconds = 100;
  treasury_addr = some 6;
  account = account_of 1000;
}

abbrev with_no_provider : Bool → ℕ → Registry
with_no_provider active failures = record (with_keeper active failures) {
  staking_provider_addr = some 0;
}

-- Keeper 3 fails, asks to leave, and withdraws.
abbrev history : List (Ctx × Call)
history =
    (by_owner, Call.record_result 3 false)
    ∷ (as_caller 3, Call.request_unstake_call)
    ∷ (record (as_caller 3) { timestamp = 1000100 }, Call.withdraw_call)
    ∷ []

with_no_provider-IsConsistent : IsConsistent 3 (with_no_provider true 0)
unfolding bit_set
with_no_provider-IsConsistent = ground arith

with_no_provider-IsSolvent : IsSolvent (with_no_provider true 0)
with_no_provider-IsSolvent = ground arith

run-IsConsistent_example : IsConsistent 3 (run idle_provider history (with_no_provider true 0))
run-IsConsistent_example =
    run-IsConsistent idle_provider history 3 (with_no_provider true 0) with_no_provider-IsConsistent

run-IsSolvent_example : IsSolvent (run idle_provider history (with_no_provider true 0))
run-IsSolvent_example =
    run-IsSolvent idle_provider history (with_no_provider true 0) (tt, (tt, (tt, tt)))
      with_no_provider-IsSolvent

withdraw_stake_pays_example :
    Returns
      (λ s'.
        Leaves 3 6 1000 50 (with_keeper false 0) s'
        × ((c : Ctx) → c.caller ≡ 3 → is_ok (withdraw_stake c s') ≡ false))
      (withdraw_stake (as_caller 3) (with_keeper false 0))
withdraw_stake_pays_example =
    withdraw_stake_pays (as_caller 3) (member false 0) 6 (with_keeper false 0) refl refl refl
      (omega arith) refl (ground arith) (omega arith)

failure_of_strikes_example :
    let first = failure_of (member true 0) 500 in
    let second = failure_of first 500 in
    (first.active ≡ true) × (second.active ≡ true) × ((failure_of second 500).active ≡ false)
failure_of_strikes_example = failure_of_strikes (member true 0) 500 refl refl (omega arith)

delegate_stake_keeps_reserve_example :
    Ensures
      (λ s'.
        (s'.total_committed_cooldown_egld ≤ s'.account.balance)
        × (s'.total_committed_cooldown_egld ≡ 400))
      (delegate_stake idle_provider by_owner 500 (record (with_keeper true 0) {
        total_committed_cooldown_egld = 400;
        staking_provider_addr = some 7;
      }))
delegate_stake_keeps_reserve_example =
    delegate_stake_keeps_reserve idle_provider by_owner 500
      (record (with_keeper true 0) {
        total_committed_cooldown_egld = 400;
        staking_provider_addr = some 7;
      })
      (λ n a. omega arith) (omega arith)

-- The views, and the penalty of a keeper that leaves within 30 days.
is_active_keeper_run : is_active_keeper 3 (with_keeper true 0) ≡ true
unfolding is_active_keeper
is_active_keeper_run = refl

get_keeper_stake_run : get_keeper_stake 4 (with_keeper true 0) ≡ 0
unfolding get_keeper_stake
get_keeper_stake_run = refl

take_penalty_run :
    take_penalty (as_caller 3) (member false 0) (with_keeper false 0)
    ≡ ok (950, record { balance = 950; outbox = send_egld 6 50 ∷ [] })
unfolding take_penalty direct_egld
take_penalty_run = refl
