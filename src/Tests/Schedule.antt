-- ===== src/Tests/Schedule.antt =====
-- States of the Scheduler, with one task, one intent, or one Clone-Key.
use xcron_protocol.Prelude.{Bool, true, false, none, some, List, [], ◌∷◌}
use xcron_protocol.Common.{
  Task, TaskStatus, time_once, QuantumTaskState, PreCognitiveIntent, PreCognitiveIntentStatus,
  CloneKeyProperties,
}
use xcron_protocol.Scheduler.State.{State}
use xcron_protocol.Scheduler.Intents.{Leaf}
use xcron_protocol.Tests.Models.{Vec, account_of}

abbrev pub Scheduler : Type 0
Scheduler = State (List Bool) Vec

abbrev pub new_scheduler : Scheduler
new_scheduler = record {
  task_nonce = 0;
  quantum_tasks = [];
  owner_tasks = [];
  keeper_registry_addr = none;
  rewards_addr = none;
  xwap_address = none;
  min_deposit = 0;
  zk_verifier_addr = none;
  xsc_address = none;
  used_compressed_tasks = [];
  assigned_enclave_keeper = [];
  protocol_fee_bps = 0;
  reveal_window = 0;
  commit_bond = 0;
  whitelisted_keepers = [];
  max_reward_per_exec = 0;
  executing_guard = false;
  version = 0;
  keeper_list = (0, []);
  round_robin_counter = 0;
  target_blacklist = [];
  target_failure_count = [];
  total_successful_execs = 0;
  total_failed_execs = 0;
  max_exec_value_egld = 0;
  keeper_shard = [];
  intent_nonce = 0;
  intent_by_id = [];
  multi_intent_nonce = 0;
  multi_intent_by_id = [];
  pre_cognitive_intent_nonce = 0;
  pre_cognitive_intent_by_id = [];
  tasks_per_round = [];
  max_tasks_per_round = 0;
  accrued_protocol_fees = 0;
  clone_key_props = [];
  wallet_clone_keys = [];
  accepted_payment_tokens = [];
  paused = false;
  tokens = [];
  account = account_of 0;
}

-- Keeper 3 is whitelisted, the fee is 2%, and the other contracts are 8 and 9.
abbrev pub ready : Scheduler
ready = record new_scheduler {
  whitelisted_keepers = false ∷ false ∷ false ∷ true ∷ [];
  keeper_list = (1, (1, 3) ∷ []);
  keeper_registry_addr = some 8;
  rewards_addr = some 9;
  xsc_address = some 10;
  zk_verifier_addr = some 0;
  xwap_address = some 0;
  protocol_fee_bps = 200;
  max_reward_per_exec = 500;
}

-- The task that is encoded as the buffer of its identifier: its seal is 1.
abbrev pub job : Task
job = record {
  id = 5;
  owner = 4;
  target_contract = 6;
  target_endpoint = 112 ∷ [];
  target_args = [];
  trigger = time_once 900000000;
  max_gas = 10000000;
  deposit = 1000;
  max_retries = 0;
  retry_count = 0;
  ttl_seconds = 0;
  created_at = 0;
  status = TaskStatus.pending;
  assigned_keeper = none;
  completed_at = 0;
  post_task_id = none;
  require_xwap_safe = false;
  confidential = false;
}

abbrev pub entry : TaskStatus → QuantumTaskState
entry status = record { owner = 4; deposit = 1000; status = status; executing_at = 0 }

abbrev pub holding : TaskStatus → Scheduler
holding status = record ready { quantum_tasks = (1, entry status) ∷ []; account = account_of 1000 }

-- Whoever brings at least 50 of token 21 receives 70 of token 20 from the owner 4.
abbrev pub swap : Leaf
swap = record {
  target_contract = 6;
  target_endpoint = [];
  target_args = [];
  expected_token_out = 21;
  min_return = 50;
}

-- The encoding of the leaf has 3 entries, which is its hash here, and the root of a single leaf.
abbrev pub committed : PreCognitiveIntent
committed = record {
  id = 1;
  owner = 4;
  token_in = 20;
  amount_in = 70;
  merkle_root = 3;
  deadline = 2000000;
  keeper_fee = 10;
  status = PreCognitiveIntentStatus.pending;
  executed_by = none;
}

abbrev pub trading : Scheduler
trading = record ready {
  pre_cognitive_intent_by_id = (1, committed) ∷ [];
  tokens = (20, 70) ∷ [];
  account = account_of 10;
}

abbrev pub clone_key : CloneKeyProperties
clone_key = record {
  main_address = 4;
  spend_limit = 1000;
  spent_amount = 100;
  expiry_timestamp = 2000000;
}

abbrev pub with_key : Scheduler
with_key = record ready { clone_key_props = (7, clone_key) ∷ []; account = account_of 900 }
