-- ===== src/Tests/Exchange.antt =====
-- The theorems on the XSE protocol at concrete intents and secrets.
use xcron_protocol.Prelude.{
  ℕ, ◌+◌, ◌≤◌, ◌<◌, ◌≡◌, ◌↔◌, refl, true, false, Option, some, List, [], ◌∷◌, arith, codes, length,
  bytes_eq,
}
use xcron_protocol.Prelude.Decimal.{Text, parse_u128, parse_digits}
use xcron_protocol.Prelude.Fallible.{done, IfDone, IsDone, is_done}
use xcron_protocol.Xse.Schema.{OrderIntent, ExecutionIntent, BatchExecutionIntent}
use xcron_protocol.Xse.Validator.{
  validate_intent, validate_orders, validate_order, validate_signature, to_lowercase, quote_amount,
  validate_batch,
}
use xcron_protocol.Xse.Acceptance.{IsAcceptable, validate_intent_iff}
use xcron_protocol.Xse.Batches.{has_index, accepted_from, validate_batch_selects}
use xcron_protocol.Xse.Enclave.{
  HardwareEnclave, EncryptedSecrets, DecryptedApiKeys, decrypt_secrets, read_keys, diff_bytes,
  from_utf8, utf8_from, utf8_lead, split_first, two_parts,
}
use xcron_protocol.Xse.Secrets.{Holds, decrypt_secrets_iff}
use xcron_protocol.Xse.Cycle.{Run, total_amount, execute_intent}
use xcron_protocol.Xse.Spending.{spent, BuysEach, execute_intent_buys}

abbrev buy_eth : OrderIntent
buy_eth = record {
  side = codes "BUY";
  asset = codes "ETH";
  max_quote_amount_atomic = codes "100";
  order_type = codes "MARKET";
}

abbrev live_intent : ExecutionIntent
live_intent = record {
  intent_type = codes "single_asset_swap";
  venue = codes "Binance";
  mode = codes "live";
  source_asset = codes "USDT";
  orders = buy_eth ∷ buy_eth ∷ [];
  constraints = record {
    max_slippage_bps = 100;
    expires_at = codes "2030";
    allowed_assets = codes "ETH" ∷ [];
    allow_withdrawals = false;
  };
  client_reference_id = codes "t";
}

abbrev far_future : Text → Option ℕ
far_future t = some 2030

validate_intent_iff_example :
    (validate_intent far_future 2025 live_intent (some (1 ∷ [])) ≡ done tt)
    ↔ IsAcceptable far_future 2025 live_intent (some (1 ∷ []))
validate_intent_iff_example = validate_intent_iff far_future 2025 live_intent (some (1 ∷ []))

abbrev batch : BatchExecutionIntent
batch = record {
  batch_id = codes "b1";
  nonce = 1;
  timestamp = 5;
  intents = live_intent ∷ live_intent ∷ [];
  atomic = false;
}

abbrev one_signature : List (Option Text)
one_signature = some (1 ∷ []) ∷ []

validate_batch_selects_example :
    IfDone
      (λ ixs.
        ((i : ℕ) → has_index i ixs ≡ accepted_from far_future 2025 one_signature 0 batch.intents i)
        × (batch.atomic ≡ true
            → (i : ℕ) → i < length batch.intents
            → accepted_from far_future 2025 one_signature 0 batch.intents i ≡ true))
      (validate_batch far_future 2025 batch one_signature)
    × (batch.atomic ≡ false
        → bytes_eq batch.batch_id [] ≡ false
        → length batch.intents ≤ 50
        → is_done (validate_batch far_future 2025 batch one_signature) ≡ true)
validate_batch_selects_example = validate_batch_selects far_future 2025 one_signature batch

-- The decrypted bytes are the blob itself.
abbrev open_enclave : HardwareEnclave
open_enclave = record { public_key_hash = codes "ab"; rsa_decrypt = λ blob. some blob }

abbrev key_pair : DecryptedApiKeys
key_pair = record { api_key = codes "KEY"; api_secret = codes "SECRET" }

abbrev sealed : EncryptedSecrets
sealed = record { blob = codes "KEY:SECRET"; enclave_pubkey_hash = codes "ab" }

decrypt_secrets_iff_example : (decrypt_secrets open_enclave sealed ≡ done key_pair) ↔ (
    (sealed.enclave_pubkey_hash ≡ open_enclave.public_key_hash)
    × Holds (open_enclave.rsa_decrypt sealed.blob) key_pair)
decrypt_secrets_iff_example =
    decrypt_secrets_iff open_enclave sealed key_pair (omega arith) (omega arith)

opened : decrypt_secrets open_enclave sealed ≡ done key_pair
unfolding decrypt_secrets read_keys diff_bytes from_utf8 utf8_from utf8_lead split_first two_parts
opened = refl

abbrev live_process : Run
live_process = record {
  parse_utc = far_future;
  now = 2025;
  timestamp = 5;
  enclave = open_enclave;
  signature = 1 ∷ [];
  verify_signature = λ text signature. true;
  blob = codes "KEY:SECRET";
  random = λ n. n;
  receipt_digest = λ orders. [];
}

accepted : validate_intent far_future 2025 live_intent (some (1 ∷ [])) ≡ done tt
unfolding validate_intent validate_orders validate_order validate_signature to_lowercase
    quote_amount parse_u128 parse_digits
accepted = refl

execute_intent_buys_example :
    IsDone
      (λ r.
        BuysEach 100 (buy_eth ∷ buy_eth ∷ []) r.0
        × ((length r.0 ≡ 2) × (spent r.0 ≤ 200) × (200 < spent r.0 + 2)))
      (execute_intent live_process live_intent)
unfolding total_amount quote_amount parse_u128 parse_digits
execute_intent_buys_example =
    execute_intent_buys live_process live_intent accepted refl refl opened refl
