-- ===== src/Tests/Agents.antt =====
-- The theorems on the agent shield at concrete states.
use xcron_protocol.Prelude.{◌≡◌, refl, true, false, none, some, List, [], ◌∷◌, arith, codes}
use xcron_protocol.Framework.{err, after, Ctx, Returns, threshold_exceeded}
use xcron_protocol.Shield.Contract.{State, Call, run, agent_propose_execution, init}
use xcron_protocol.Shield.Limits.{IsWithin, run-IsWithin, exceeding_leaves_open}
use xcron_protocol.Tests.Models.{by_owner, as_caller, account_of}

abbrev blank_shield : State
blank_shield = record {
  validation_contract_address = none;
  identity_contract_address = none;
  authorized_agent = none;
  is_paused = false;
  shield_daily_limit = [];
  daily_spent = λ t d. 0;
  tokens = [];
  account = account_of 0;
}

-- Agent 5 may spend 100 a day of token 7, of which the shield holds 500.
abbrev funded : State
funded = record blank_shield {
  authorized_agent = some 5;
  shield_daily_limit = (7, 100) ∷ [];
  tokens = (7, 500) ∷ [];
}

-- The agent spends 60, asks for 90 more, and the owner lowers the limit.
abbrev history : List (Ctx × Call)
history =
    (as_caller 5, Call.propose 30 7 60 (codes "swap") [])
    ∷ (as_caller 5, Call.propose 30 7 90 (codes "swap") [])
    ∷ (as_caller 30, Call.executed 7 11 60 false)
    ∷ (by_owner, Call.limit_call 7 80)
    ∷ []

funded-IsWithin : IsWithin 7 100 funded
funded-IsWithin = record { limited = omega arith; spent = λ d. omega arith }

run-IsWithin_example : IsWithin 7 100 (run (λ t. true) history funded)
run-IsWithin_example =
    run-IsWithin (λ t. true) history 7 100 funded (tt, (tt, (tt, ((λ e. omega arith), tt))))
      funded-IsWithin

exceeding_leaves_open_example :
    (agent_propose_execution (λ t. true) (as_caller 5) 30 7 150 (codes "swap") [] funded
      ≡ err threshold_exceeded)
    × Returns
        (λ s'. s'.is_paused ≡ false)
        (agent_propose_execution
          (λ t. true)
          (as_caller 5)
          30
          7
          100
          (codes "swap")
          []
          (after funded
            (agent_propose_execution (λ t. true) (as_caller 5) 30 7 150 (codes "swap") [] funded)))
exceeding_leaves_open_example =
    exceeding_leaves_open (λ t. true) (as_caller 5) 30 7 150 100 (codes "swap") [] funded
      (refl, refl, refl, refl) (refl, refl) (omega arith, omega arith)
      (omega arith, omega arith, omega arith)

init_run : (init 1 2 5 blank_shield).authorized_agent ≡ some 5
unfolding init
init_run = refl
