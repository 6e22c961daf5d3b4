-- ===== src/Common/Types.antt =====
-- contracts/common/src/types.rs
use xcron_protocol.Prelude.{ℕ, Bool, Option, List}
use xcron_protocol.Framework.{Address, TokenId, Hash}

pub data IntentStatus : Type 0 where
  pending settled cancelled expired : IntentStatus

pub record Intent : Type 0 where
  pub id : ℕ
  pub owner : Address
  pub token_in : TokenId
  pub amount_in : ℕ
  pub token_out : TokenId
  pub min_return : ℕ
  pub deadline : ℕ
  pub solver_fee : ℕ
  pub status : IntentStatus
  pub settled_by : Option Address

pub record MultiIntentOutcome : Type 0 where
  pub token_out : TokenId
  pub min_return : ℕ

pub record MultiIntent : Type 0 where
  pub id : ℕ
  pub owner : Address
  pub token_in : TokenId
  pub amount_in : ℕ
  pub outcomes : List MultiIntentOutcome
  pub deadline : ℕ
  pub solver_fee : ℕ
  pub status : IntentStatus
  pub settled_by : Option Address

pub data PreCognitiveIntentStatus : Type 0 where
  pending executed cancelled expired : PreCognitiveIntentStatus

pub record PreCognitiveIntent : Type 0 where
  pub id : ℕ
  pub owner : Address
  pub token_in : TokenId
  pub amount_in : ℕ
  pub merkle_root : Hash
  pub deadline : ℕ
  pub keeper_fee : ℕ
  pub status : PreCognitiveIntentStatus
  pub executed_by : Option Address

pub data TaskStatus : Type 0 where
  pending committed executing completed failed cancelled expired : TaskStatus

pub data Comparator : Type 0 where
  gt lt eq gte lte : Comparator

-- A `ManagedBuffer` is its bytes.
abbrev pub Buffer : Type 0
Buffer = List ℕ

pub data Trigger : Type 0 where
  time_once : (target_time : ℕ) → Trigger
  time_recurring : (start_time interval remaining_execs : ℕ) → Trigger
  state_driven :
      (oracle_contract : Address) (query_endpoint : Buffer) (query_args : List Buffer)
      (comparator : Comparator) (threshold : ℕ)
      → Trigger
  event_driven : (emitter_contract : Address) (event_topic : Buffer) → Trigger
  quantum_sealed_hash : (expected_hash : Hash) → Trigger

pub record Task : Type 0 where
  pub id : ℕ
  pub owner : Address
  pub target_contract : Address
  pub target_endpoint : Buffer
  pub target_args : List Buffer
  pub trigger : Trigger
  pub max_gas : ℕ
  pub deposit : ℕ
  pub max_retries : ℕ
  pub retry_count : ℕ
  pub ttl_seconds : ℕ
  pub created_at : ℕ
  pub status : TaskStatus
  pub assigned_keeper : Option Address
  pub completed_at : ℕ
  pub post_task_id : Option ℕ
  pub require_xwap_safe : Bool
  pub confidential : Bool

pub record QuantumTaskState : Type 0 where
  pub owner : Address
  pub deposit : ℕ
  pub status : TaskStatus
  pub executing_at : ℕ

pub record KeeperInfo : Type 0 where
  pub addr : Address
  pub stake : ℕ
  pub registered_at : ℕ
  pub total_executions : ℕ
  pub successful_execs : ℕ
  pub failed_execs : ℕ
  pub slashed_amount : ℕ
  pub active : Bool
  pub consecutive_failures : ℕ

pub record CloneKeyProperties : Type 0 where
  pub main_address : Address
  pub spend_limit : ℕ
  pub spent_amount : ℕ
  pub expiry_timestamp : ℕ
