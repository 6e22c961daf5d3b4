-- ===== src/Xse/Cycle.antt =====
-- xse-protocol/src/relayer.rs and main.rs: the buys that an intent leads to, and the receipt for it. The
-- signature of the run, chrono, Dilithium, the encrypted blob, the random identifiers of the simulated
-- orders and the digest of the receipt are parameters; the output and the file are not modelled.
use xcron_protocol.Prelude.{
  ℕ, ◌+◌, ◌*◌, ◌/◌, ◌%◌, ◌^◌, Bool, not, Option, none, some, List, [], ◌∷◌, ◌++◌, map, ◌==◌,
  if◌then◌else◌, codes, bytes_eq, length,
}
use xcron_protocol.Prelude.Decimal.{Text, parse_u128, to_string}
use xcron_protocol.Prelude.Fallible.{Fallible, failed, done, check, or_fail, ◌>>=◌, ◌>>◌}
use xcron_protocol.Xse.Schema.{OrderIntent, ExecutionIntent, ExecutedOrder, ExecutionReceipt}
use xcron_protocol.Xse.Validator.{ValidationError, validate_intent, quote_amount}
use xcron_protocol.Xse.Enclave.{EnclaveError, EncryptedSecrets, HardwareEnclave, decrypt_secrets}

-- Why a cycle ends with no receipt. A panic is a division by zero or an index out of range.
pub data Stop : Type 0 where
  rejected : ValidationError → Stop
  unauthorized invalid_amount panicked : Stop
  enclave_stopped : EnclaveError → Stop

abbrev pub lift {ℓ κ} : {E : Type ℓ} {A : Type κ} → (E → Stop) → Fallible E A → Fallible Stop A
lift f (failed e) = failed (f e)
lift f (done a) = done a

-- `asset.replace("/", "")`; 47 is the slash.
unfoldable pub strip_slashes : Text → Text
strip_slashes [] = []
strip_slashes (c ∷ cs) = let rest = strip_slashes cs in if c == 47 then rest else c ∷ rest

-- A market buy: the symbol, and the quote amount in atomic units.
abbrev pub Buy : Type 0
Buy = Text × ℕ

-- `execute_reverse_dca`: the buys that it prepares.
unfoldable pub execute_reverse_dca :
    HardwareEnclave → EncryptedSecrets → List Text → Text → Fallible Stop (List Buy)
unfolding strip_slashes
execute_reverse_dca enclave encrypted_keys target_assets amount = do
  amount_atomic ← or_fail (parse_u128 amount) invalid_amount
  keys ← lift enclave_stopped (decrypt_secrets enclave encrypted_keys)
  check (not (length target_assets == 0)) panicked
  done (map (λ asset. (strip_slashes asset, amount_atomic / length target_assets)) target_assets)

-- `total_amount_atomic`, whose sum wraps in a release build.
unfoldable pub total_amount : List OrderIntent → ℕ
total_amount [] = 0
total_amount (o ∷ os) = (quote_amount o + total_amount os) % 2 ^ 128

unfoldable pub executed_order : ExecutionIntent → (ℕ → ℕ) → ℕ → OrderIntent → ExecutedOrder
executed_order intent random index o = record {
  intent_index = index;
  asset = o.asset;
  side = o.side;
  requested_quote_amount_atomic = o.max_quote_amount_atomic;
  executed_quote_amount_atomic = o.max_quote_amount_atomic;
  executed_base_amount_atomic = to_string (quote_amount o / 50);
  average_price_atomic = to_string (50 * 1000000);
  venue_order_id = codes "sim_" ++ to_string (random index);
  venue = intent.venue;
}

-- The loop over the orders.
unfoldable pub executed_orders :
    ExecutionIntent → (ℕ → ℕ) → ℕ → List OrderIntent → List ExecutedOrder
executed_orders intent random index [] = []
executed_orders intent random index (o ∷ os) =
    executed_order intent random index o ∷ executed_orders intent random (index + 1) os

-- What one run of the process meets. The health of the exchange is the status that `CexRelayer::new`
-- sets, online, and the signature is over `execute_task_` and the client's reference.
pub record Run : Type 0 where
  pub parse_utc : Text → Option ℕ
  pub now : ℕ
  pub timestamp : ℕ
  pub enclave : HardwareEnclave
  pub signature : Text
  pub verify_signature : Text → Text → Bool
  pub blob : List ℕ
  pub random : ℕ → ℕ
  pub receipt_digest : List ExecutedOrder → Text

module _ (run : Run) where
  abbrev pub encrypted_payload : EncryptedSecrets
  encrypted_payload = record { blob = run.blob; enclave_pubkey_hash = run.enclave.public_key_hash }

  abbrev pub assets : ExecutionIntent → List Text
  assets intent = map (λ o. o.asset) intent.orders

  -- A dry run opens the enclave and buys nothing.
  unfoldable pub dry_run : Fallible Stop (List Buy)
  dry_run = do keys ← lift enclave_stopped (decrypt_secrets run.enclave encrypted_payload); done []

  -- `target_assets[0]` is read before the exchange is asked for its health.
  unfoldable pub live_run : ExecutionIntent → Fallible Stop (List Buy)
  live_run intent = do
    check (not (length (assets intent) == 0)) panicked
    execute_reverse_dca run.enclave encrypted_payload (assets intent)
        (to_string (total_amount intent.orders))

  unfoldable pub receipt_for : ExecutionIntent → ExecutionReceipt
  receipt_for intent =
      let orders = executed_orders intent run.random 0 intent.orders in
      record {
        batch_id = codes "SIM_BATCH_001";
        status = codes "SUCCESS";
        failure_context = none;
        orders = orders;
        total_executed_quote_atomic = to_string (total_amount intent.orders);
        timestamp = run.timestamp;
        proof = record {
          executor_id = codes "XSE_NODE_01";
          attestation_hash = run.enclave.public_key_hash;
          receipt_hash = run.receipt_digest orders;
        };
        metadata =
            (codes "mode", intent.mode) ∷ (codes "client_ref", intent.client_reference_id) ∷ [];
      }

  -- `main`, from the intent that was read to the receipt that is written, with the buys.
  unfoldable pub execute_intent : ExecutionIntent → Fallible Stop (List Buy × ExecutionReceipt)
  execute_intent intent = do
    lift rejected (validate_intent run.parse_utc run.now intent (some run.signature))
    check (run.verify_signature (codes "execute_task_" ++ intent.client_reference_id) run.signature)
        unauthorized
    buys ← (if bytes_eq intent.mode (codes "dry_run") then dry_run else live_run intent)
    done (buys, receipt_for intent)
