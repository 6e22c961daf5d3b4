-- ===== src/Xse/Schema.antt =====
-- xse-protocol/src/schema.rs: the messages, as serde leaves them. Texts are their bytes.
use xcron_protocol.Prelude.{ℕ, Bool, Option, List}
use xcron_protocol.Prelude.Decimal.{Text}

pub record OrderIntent : Type 0 where
  pub side : Text
  pub asset : Text
  pub max_quote_amount_atomic : Text
  pub order_type : Text

pub record Constraints : Type 0 where
  pub max_slippage_bps : ℕ
  pub expires_at : Text
  pub allowed_assets : List Text
  pub allow_withdrawals : Bool

pub record ExecutionIntent : Type 0 where
  pub intent_type : Text
  pub venue : Text
  pub mode : Text
  pub source_asset : Text
  pub orders : List OrderIntent
  pub constraints : Constraints
  pub client_reference_id : Text

pub record BatchExecutionIntent : Type 0 where
  pub batch_id : Text
  pub nonce : ℕ
  pub timestamp : ℕ
  pub intents : List ExecutionIntent
  pub atomic : Bool

pub record ExecutedOrder : Type 0 where
  pub intent_index : ℕ
  pub asset : Text
  pub side : Text
  pub requested_quote_amount_atomic : Text
  pub executed_quote_amount_atomic : Text
  pub executed_base_amount_atomic : Text
  pub average_price_atomic : Text
  pub venue_order_id : Text
  pub venue : Text

pub record FailureContext : Type 0 where
  pub failed_intent_index : ℕ
  pub error_code : Text
  pub error_message : Text
  pub partial_execution : Bool

pub record Proof : Type 0 where
  pub executor_id : Text
  pub attestation_hash : Text
  pub receipt_hash : Text

pub record ExecutionReceipt : Type 0 where
  pub batch_id : Text
  pub status : Text
  pub failure_context : Option FailureContext
  pub orders : List ExecutedOrder
  pub total_executed_quote_atomic : Text
  pub timestamp : ℕ
  pub proof : Proof
  pub metadata : List (Text × Text)
