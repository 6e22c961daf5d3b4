-- ===== src/Tests/Fees.antt =====
-- The theorems on the Rewards contract at concrete states.
use xcron_protocol.Prelude.{◌≡◌, refl, Bool, false, none, some, List, [], ◌∷◌, arith, read}
use xcron_protocol.Framework.{Ctx, Returns, send_egld, direct_egld}
use xcron_protocol.Rewards.Contract.{
  State, Call, run, dispatch, receive_execution_fee, claim_rewards, get_pending_rewards,
}
use xcron_protocol.Rewards.Accounts.{IsBalanced, run-IsBalanced, claim_rewards_pays}
use xcron_protocol.Rewards.Ledger.{fee, claimed, post_all, ledger_of, run_refines}
use xcron_protocol.Tests.Models.{bit_set, as_caller, paying, account_of}

abbrev pub Rewards : Type 0
Rewards = State (List Bool)

abbrev pub new_rewards : Rewards
new_rewards = record {
  keeper_registry_addr = none;
  treasury_split_bps = 0;
  pending_rewards = [];
  treasury_balance = 0;
  authorized_schedulers = [];
  version = 0;
  paused = false;
  account = account_of 0;
}

-- The treasury takes 20%, keeper 3 has 80 to claim, and the treasury 20.
abbrev pub earned : Rewards
earned = record new_rewards {
  treasury_split_bps = 2000;
  pending_rewards = (3, 80) ∷ [];
  treasury_balance = 20;
  account = account_of 100;
}

earned-IsBalanced : IsBalanced earned
earned-IsBalanced = ground arith

-- The owner pays a fee for keeper 3, who claims; a second claim fails.
abbrev history : List (Ctx × Call)
history =
    (paying 1 100, Call.receive_fee 3) ∷ (as_caller 3, Call.claim) ∷ (as_caller 3, Call.claim) ∷ []

run-IsBalanced_example : IsBalanced (run history earned)
run-IsBalanced_example = run-IsBalanced history earned earned-IsBalanced

claim_rewards_pays_example :
    Returns
      (λ s'.
        (read 3 s'.pending_rewards ≡ 0)
        × (s'.treasury_balance ≡ 20)
        × (s'.account.outbox ≡ send_egld 3 80 ∷ []))
      (claim_rewards (as_caller 3) earned)
claim_rewards_pays_example =
    claim_rewards_pays (as_caller 3) 3 earned earned-IsBalanced (refl, refl) (omega arith)

get_pending_rewards_run : get_pending_rewards 3 earned ≡ 80
unfolding get_pending_rewards
get_pending_rewards_run = refl

run_refines_example :
    post_all (fee 100 3 ∷ claimed 3 ∷ []) (ledger_of earned) ≡ some (ledger_of (run history earned))
unfolding dispatch receive_execution_fee claim_rewards direct_egld bit_set
run_refines_example = run_refines history earned
