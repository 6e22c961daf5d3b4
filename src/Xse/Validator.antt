-- ===== src/Xse/Validator.antt =====
-- xse-protocol/src/validator.rs. `parse_utc` is chrono's `parse::<DateTime<Utc>>`, and `now` the
-- system's time on the same scale.
use xcron_protocol.Prelude.{
  ℕ, ◌+◌, ◌-◌, Bool, ◌&&◌, not, Option, none, some, List, [], ◌∷◌, leb, ◌==◌, if◌then◌else◌, codes,
  bytes_eq, is_one_of, length,
}
use xcron_protocol.Prelude.Decimal.{Text, parse_u128, or_zero}
use xcron_protocol.Prelude.Fallible.{Fallible, failed, done, check, or_fail, ◌>>=◌, ◌>>◌}
use xcron_protocol.Xse.Schema.{OrderIntent, ExecutionIntent, BatchExecutionIntent}

pub data ValidationError : Type 0 where
  withdrawals_enabled expired invalid_quantum_signature : ValidationError
  asset_not_allowed : Text → ValidationError
  excessive_slippage : ℕ → ValidationError
  batch_size_exceeded : ℕ → ValidationError
  invalid_venue : Text → ValidationError

abbrev pub max_batch_size : ℕ
max_batch_size = 50

-- `to_lowercase`, for the texts in ASCII that it is compared with.
unfoldable pub to_lowercase : Text → Text
to_lowercase [] = []
to_lowercase (c ∷ cs) = (if leb 65 c && leb c 90 then c + 32 else c) ∷ to_lowercase cs

abbrev pub supported_venues : List Text
supported_venues = codes "binance" ∷ codes "xexchange" ∷ codes "ashswap" ∷ codes "dry_run" ∷ []

-- `order.max_quote_amount_atomic.parse::<u128>().unwrap_or(0)`
unfoldable pub quote_amount : OrderIntent → ℕ
quote_amount o = or_zero (parse_u128 o.max_quote_amount_atomic)

unfoldable pub validate_order : List Text → OrderIntent → Fallible ValidationError (Unit {0})
unfolding quote_amount
validate_order allowed o = do
  check (not (quote_amount o == 0)) (asset_not_allowed (codes "INVALID_AMOUNT_ZERO_OR_NON_NUMERIC"))
  check (is_one_of o.asset allowed) (asset_not_allowed o.asset)

-- The loop over the orders.
unfoldable pub validate_orders : List Text → List OrderIntent → Fallible ValidationError (Unit {0})
unfolding validate_order
validate_orders allowed [] = done tt
validate_orders allowed (o ∷ os) = validate_order allowed o >> validate_orders allowed os

-- Of a signature the code asks only that it is there and not empty.
unfoldable pub validate_signature : Option Text → Fallible ValidationError (Unit {0})
validate_signature none = failed invalid_quantum_signature
validate_signature (some []) = failed invalid_quantum_signature
validate_signature (some (b ∷ bs)) = done tt

-- `signatures.get(index).and_then(..)`
unfoldable pub signature_at : ℕ → List (Option Text) → Option Text
signature_at index [] = none
signature_at index (s ∷ ss) = if index == 0 then s else signature_at (index - 1) ss

-- One intent of the batch, with what the loop makes of those after it.
unfoldable pub collect :
    Bool
    → ℕ
    → Fallible ValidationError (Unit {0})
    → Fallible (ℕ × ValidationError) (List ℕ)
    → Fallible (ℕ × ValidationError) (List ℕ)
collect atomic index (done _) rest = do indices ← rest; done (index ∷ indices)
collect atomic index (failed e) rest = if atomic then failed (index, e) else rest

module _ (parse_utc : Text → Option ℕ) (now : ℕ) where
  unfoldable pub validate_intent :
      ExecutionIntent → Option Text → Fallible ValidationError (Unit {0})
  unfolding validate_orders validate_signature to_lowercase
  validate_intent intent signature = do
    check (not intent.constraints.allow_withdrawals) withdrawals_enabled
    check (is_one_of (to_lowercase intent.venue) supported_venues) (invalid_venue intent.venue)
    check (leb intent.constraints.max_slippage_bps 100)
        (excessive_slippage intent.constraints.max_slippage_bps)
    validate_orders intent.constraints.allowed_assets intent.orders
    validate_signature signature
    expires_at ← or_fail (parse_utc intent.constraints.expires_at) expired
    check (leb now expires_at) expired

  -- The loop from `index` on: the indices that are valid, or the first error of an atomic batch.
  unfoldable pub validate_from :
      Bool → List (Option Text) → ℕ → List ExecutionIntent → Fallible (ℕ × ValidationError) (List ℕ)
  validate_from atomic signatures index [] = done []
  validate_from atomic signatures index (intent ∷ intents) =
      collect atomic index (validate_intent intent (signature_at index signatures))
        (validate_from atomic signatures (index + 1) intents)

  unfoldable pub validate_batch :
      BatchExecutionIntent → List (Option Text) → Fallible (ℕ × ValidationError) (List ℕ)
  validate_batch batch signatures = do
    check (not (bytes_eq batch.batch_id [])) (0, asset_not_allowed (codes "MISSING_BATCH_ID"))
    check (leb (length batch.intents) max_batch_size)
        (0, batch_size_exceeded (length batch.intents))
    validate_from batch.atomic signatures 0 batch.intents
