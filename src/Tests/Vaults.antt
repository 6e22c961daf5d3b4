-- ===== src/Tests/Vaults.antt =====
-- The theorems on the vault at concrete states.
use xcron_protocol.Prelude.{
  ◌+◌, ◌≤◌, ◌≡◌, refl, true, false, none, some, List, [], ◌∷◌, arith, read,
}
use xcron_protocol.Framework.{Ctx, Returns, send_egld, after, register_promise, direct_egld}
use xcron_protocol.Vault.State.{State, init}
use xcron_protocol.Vault.Savings.{
  deposit, withdraw, deposit_callback, withdraw_callback, withdraw_unbonded, cancel_pending,
}
use xcron_protocol.Vault.Strategies.{swap, send_swap, event_callback}
use xcron_protocol.Vault.Calls.{Call, run, dispatch}
use xcron_protocol.Vault.Pending.{IsBooked, run-IsBooked, shortfall, shortfall-run, all_requested}
use xcron_protocol.Vault.Flights.{
  IsAccounted, Reach, here, step, take_off, land, Reach-IsAccounted, withdraw_in_flight_pays_twice,
}
use xcron_protocol.Tests.Models.{as_caller, paying, account_of}

abbrev blank_vault : State
blank_vault = record {
  user_balance = [];
  total_deposited = 0;
  total_compounded = 0;
  compound_count = 0;
  pending_withdrawals = [];
  total_pending_withdrawals = 0;
  delegation_contract = none;
  scheduler_address = none;
  dex_pair_contract = none;
  swap_amount_per_execution = 0;
  max_slippage_bps = 0;
  nft_contract = none;
  mint_price = 0;
  mint_endpoint_name = [];
  paused = false;
  account = account_of 0;
}

-- Delegates to 20 on behalf of the scheduler 9, with a DEX at 30 and 40 of its own.
abbrev open_vault : State
open_vault = record blank_vault {
  delegation_contract = some 20;
  scheduler_address = some 9;
  dex_pair_contract = some 30;
  max_slippage_bps = 300;
  account = account_of 40;
}

-- User 3 deposits 100 and withdraws 60, its undelegation is confirmed, and the scheduler swaps.
abbrev history : List (Ctx × Call)
history =
    (paying 3 100, Call.deposit_call)
    ∷ (as_caller 20, Call.deposit_result 3 100 true)
    ∷ (as_caller 3, Call.withdraw_call 60)
    ∷ (as_caller 20, Call.withdraw_result 3 60 true)
    ∷ (paying 20 60, Call.other_result)
    ∷ (as_caller 9, Call.swap_call)
    ∷ (as_caller 3, Call.withdraw_unbonded_call)
    ∷ []

open_vault-IsBooked : IsBooked open_vault
open_vault-IsBooked = ground arith

run-IsBooked_example : IsBooked (run history open_vault)
run-IsBooked_example = run-IsBooked history open_vault open_vault-IsBooked

shortfall-run_example :
    shortfall (run history open_vault) ≤ shortfall open_vault + all_requested history
shortfall-run_example = shortfall-run history open_vault (ground arith)

-- The swap leaves the 60 that user 3 is paid afterwards.
history_balance : (run history open_vault).account.balance ≡ 0
unfolding run dispatch deposit deposit_callback withdraw withdraw_callback event_callback swap
    withdraw_unbonded register_promise send_swap direct_egld cancel_pending
history_balance = refl

-- The deposit of user 3 takes off, and its delegation fails.
abbrev taken_off : State
taken_off = after open_vault (deposit (paying 3 100) open_vault)

abbrev landed : State
landed = after taken_off (deposit_callback (paying 20 100) 3 100 false taken_off)

flight : Reach (open_vault, []) (landed, [])
unfolding deposit deposit_callback register_promise direct_egld
flight =
    step (open_vault, []) (taken_off, (3, 100) ∷ []) (landed, [])
      (take_off (paying 3 100) open_vault taken_off [] refl)
      (step (taken_off, (3, 100) ∷ []) (landed, []) (landed, [])
        (land (paying 20 100) 3 100 false taken_off landed [] [] refl) (here (landed, [])))

open_vault-IsAccounted : IsAccounted (open_vault, [])
open_vault-IsAccounted = record { distinct = tt; accounted = refl; covers = λ u. omega arith }

Reach-IsAccounted_example : IsAccounted (landed, [])
Reach-IsAccounted_example = Reach-IsAccounted flight open_vault-IsAccounted

withdraw_in_flight_pays_twice_example :
    Returns
      (λ s1.
        Returns
          (λ s2.
            Returns
              (λ s3.
                (read 3 s3.pending_withdrawals ≡ 100)
                × (s3.account.balance ≡ 40)
                × (s3.account.outbox ≡ send_egld 3 100 ∷ s2.account.outbox))
              (deposit_callback (paying 20 100) 3 100 false s2))
          (withdraw (as_caller 3) 100 s1))
      (deposit (paying 3 100) open_vault)
withdraw_in_flight_pays_twice_example =
    withdraw_in_flight_pays_twice (paying 3 100) (as_caller 3) (paying 20 100) 20 open_vault
      (refl, refl) (omega arith, refl, refl) (refl, refl, refl)

init_run : (init 20 9 blank_vault).max_slippage_bps ≡ 300
unfolding init
init_run = refl
