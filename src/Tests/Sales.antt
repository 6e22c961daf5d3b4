-- ===== src/Tests/Sales.antt =====
-- The theorems on the registries and the marketplace at concrete states.
use xcron_protocol.Prelude.{ℕ, ◌*◌, ◌/◌, ◌≡◌, refl, Bool, none, some, List, [], ◌∷◌, arith, Dict}
use xcron_protocol.Framework.{ok, Ctx, Returns}
use xcron_protocol.Agents.Types.{JobData, new, Payment}
use xcron_protocol.Agents.Identity as Identity
use xcron_protocol.Agents.Identity.{sync_ownership, set_metadata, sync_ownership_without_effect}
use xcron_protocol.Agents.Validation as Validation
use xcron_protocol.Agents.Validation.{settle_job}
use xcron_protocol.Agents.Reputation as Reputation
use xcron_protocol.Agents.Reputation.{
  evaluate_agent_fair_value, give_feedback_simple, base_value, give_feedback_simple_any_agent,
}
use xcron_protocol.Agents.Marketplace as Marketplace
use xcron_protocol.Agents.Marketplace.{Call}
use xcron_protocol.Tests.Models.{dict_bidi, as_caller, account_of}

-- Agent 4 belongs to address 6.
abbrev registry : Identity.State (Dict ℕ)
registry = record {
  agent_token_id = some 50;
  agents = (4, 6) ∷ [];
  agent_details = [];
  agent_metadata = [];
  agent_service_config = [];
  account = account_of 0;
}

abbrev agent_nft : Payment
agent_nft = record { token_identifier = 50; token_nonce = 4; amount = 1 }

abbrev own_job : JobData
own_job = record { status = new; proof = []; employer = 9; creation_timestamp = 0; agent_nonce = 1 }

-- Address 9 has opened job 3 for agent 1.
abbrev jobs : Validation.State (List Bool)
jobs = record {
  job_data = (3, own_job) ∷ [];
  identity_registry_address = none;
  validation_request_data = [];
  agent_validations = λ n. [];
  whitelisted_validators = [];
  account = account_of 0;
}

abbrev no_scores : Reputation.State (List Bool)
no_scores = record {
  reputation_score = [];
  total_jobs = [];
  validation_contract_address = none;
  identity_contract_address = none;
  has_given_feedback = [];
  agent_response = [];
  feedback_data = λ a k i. none;
  last_feedback_index = λ a k. 0;
  feedback_clients = λ a. [];
}

-- It rates agent 4 with 1.
give_feedback_simple_any_agent_example :
    (evaluate_agent_fair_value 4 100 1500 no_scores ≡ ok (base_value 100 1500 * 80 / 100))
    × Returns
        (λ s'. evaluate_agent_fair_value 4 100 1500 s' ≡ ok (base_value 100 1500 * 1 / 100))
        (give_feedback_simple jobs (as_caller 9) 3 4 1 no_scores)
give_feedback_simple_any_agent_example =
    give_feedback_simple_any_agent (as_caller 9) jobs own_job 3 4 1 100 1500 no_scores (refl, refl)
      refl (refl, refl) (omega arith, omega arith)

abbrev market : Marketplace.State
market = record {
  reputation_registry_address = some 40;
  treasury_address = some 41;
  agent_nft_token_id = some 50;
  listings = [];
  listing_earnings = [];
  listing_apr = [];
  held = [];
  account = account_of 7;
}

-- Address 6 lists agent 4.
abbrev listing : List (Reputation.State (List Bool) × (Ctx × Call))
listing = (no_scores, (as_caller 6, Call.list_call agent_nft 100 1500)) ∷ []

settle_job_run : settle_job 8 70 [] ≡ []
unfolding settle_job
settle_job_run = refl
