-- ===== src/Scheduler/State.antt =====
-- contracts/scheduler/src/storage.rs, `init` and `upgrade` of lib.rs, the helpers of helpers.rs and
-- the access control of validation.rs.
use xcron_protocol.Prelude.{
  ℕ, ◌+◌, ◌*◌, Bool, false, not, Option, none, some, leb, ltb, ◌==◌, if◌then◌else◌, Dict, insert,
  read_or,
}
use xcron_protocol.Framework.{
  Result, ok, ◌>>=◌, ◌>>◌, guard, Address, Account, SetMapper, contains, insert_item, swap_remove,
  u64, u32, direct_egld, emit, call_record_execution, contract_paused, not_authorized,
  protocol_fee_exceeds_100,
}
use xcron_protocol.Common.{
  QuantumTaskState, Intent, MultiIntent, PreCognitiveIntent, CloneKeyProperties,
  default_reveal_window_seconds, default_max_reward_per_exec, default_max_tasks_per_round,
}

pub record State (S V : Type 0) : Type 0 where
  pub task_nonce : ℕ
  pub quantum_tasks : Dict QuantumTaskState
  pub owner_tasks : Dict S
  pub keeper_registry_addr : Option Address
  pub rewards_addr : Option Address
  pub xwap_address : Option Address
  pub min_deposit : ℕ
  pub zk_verifier_addr : Option Address
  pub xsc_address : Option Address
  pub used_compressed_tasks : Dict Bool
  pub assigned_enclave_keeper : Dict Address
  pub protocol_fee_bps : ℕ
  pub reveal_window : ℕ
  pub commit_bond : ℕ
  pub whitelisted_keepers : S
  pub max_reward_per_exec : ℕ
  pub executing_guard : Bool
  pub version : ℕ
  pub keeper_list : V
  pub round_robin_counter : ℕ
  pub target_blacklist : S
  pub target_failure_count : Dict ℕ
  pub total_successful_execs : ℕ
  pub total_failed_execs : ℕ
  pub max_exec_value_egld : ℕ
  pub keeper_shard : Dict ℕ
  pub intent_nonce : ℕ
  pub intent_by_id : Dict Intent
  pub multi_intent_nonce : ℕ
  pub multi_intent_by_id : Dict MultiIntent
  pub pre_cognitive_intent_nonce : ℕ
  pub pre_cognitive_intent_by_id : Dict PreCognitiveIntent
  pub tasks_per_round : Dict (Dict ℕ)
  pub max_tasks_per_round : ℕ
  pub accrued_protocol_fees : ℕ
  pub clone_key_props : Dict CloneKeyProperties
  pub wallet_clone_keys : Dict S
  pub accepted_payment_tokens : Dict Bool
  pub paused : Bool
  pub tokens : Dict ℕ
  pub account : Account

-- `get_timestamp_ms`: a clock above 100 billion already counts milliseconds.
unfoldable pub get_timestamp_ms : ℕ → ℕ
get_timestamp_ms raw_time = if ltb 100000000000 raw_time then raw_time else u64 (raw_time * 1000)

module _ {S V : Type 0} where
  -- `init`, on the storage of a new contract.
  unfoldable pub init : Address → Address → ℕ → ℕ → State S V → Result (State S V)
  init keeper_registry rewards min_deposit protocol_fee_bps s = do
    guard (leb protocol_fee_bps 10000) protocol_fee_exceeds_100
    ok (record s {
      keeper_registry_addr = some keeper_registry;
      rewards_addr = some rewards;
      min_deposit = min_deposit;
      protocol_fee_bps = protocol_fee_bps;
      reveal_window = default_reveal_window_seconds;
      commit_bond = 0;
      task_nonce = 0;
      paused = false;
      executing_guard = false;
      version = 1;
      max_reward_per_exec = default_max_reward_per_exec;
      max_tasks_per_round = default_max_tasks_per_round;
    })

  -- `set_if_empty` writes a number that is 0.
  unfoldable pub upgrade : State S V → State S V
  upgrade s = record s {
    version = u32 (s.version + 1);
    max_tasks_per_round =
        if s.max_tasks_per_round == 0 then default_max_tasks_per_round else s.max_tasks_per_round;
    max_reward_per_exec =
        if s.max_reward_per_exec == 0 then default_max_reward_per_exec else s.max_reward_per_exec;
    reveal_window = if s.reveal_window == 0 then default_reveal_window_seconds else s.reveal_window;
  }

  abbrev pub require_not_paused : State S V → Result (Unit {0})
  require_not_paused s = guard (not s.paused) contract_paused

  -- `self.send().direct_egld` on the contract's state.
  abbrev pub pay : Address → ℕ → State S V → Result (State S V)
  pay to amount s = do
    account ← direct_egld to amount s.account
    ok (record s { account = account })

  -- The fee stays in the contract until it is flushed.
  abbrev pub forward_protocol_fee : ℕ → State S V → State S V
  forward_protocol_fee fee s = record s { accrued_protocol_fees = s.accrued_protocol_fees + fee }

  abbrev pub forward_keeper_result : Address → Bool → State S V → State S V
  forward_keeper_result keeper success s = elim s.keeper_registry_addr [
    | none ↦ s
    | some registry ↦ record s {
      account = emit (call_record_execution registry keeper success) s.account;
    }
  ]

module _ {S V : Type 0} ⦃sets : SetMapper S⦄ where
  abbrev pub require_registered_keeper : Address → State S V → Result (Unit {0})
  require_registered_keeper keeper s = guard (contains keeper s.whitelisted_keepers) not_authorized

module _ {S : Type 0} ⦃sets : SetMapper S⦄ where
  -- The set that is stored under an owner.
  abbrev pub set_of : ℕ → Dict S → S
  set_of owner d = read_or sets.empty_set owner d

  abbrev pub add_to : ℕ → ℕ → Dict S → Dict S
  add_to owner item d = insert owner (insert_item item (set_of owner d)) d

  abbrev pub remove_from : ℕ → ℕ → Dict S → Dict S
  remove_from owner item d = insert owner (swap_remove item (set_of owner d)) d
