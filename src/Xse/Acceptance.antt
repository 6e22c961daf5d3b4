-- ===== src/Xse/Acceptance.antt =====
-- Which intents and batches xse-protocol/src/validator.rs accepts.
use xcron_protocol.Prelude.{
  ℕ, ◌≤◌, ◌<◌, ◌≡◌, ◌↔◌, refl, true, false, Option, none, some, List, [], ◌∷◌, arith, is_one_of,
  le→leb,
}
use xcron_protocol.Prelude.Decimal.{Text}
use xcron_protocol.Prelude.Fallible.{done}
use xcron_protocol.Xse.Schema.{OrderIntent, ExecutionIntent}
use xcron_protocol.Xse.Validator.{
  to_lowercase, supported_venues, quote_amount, validate_order, validate_orders, validate_signature,
  validate_intent,
}

-- Each order asks for a positive amount of an allowed asset.
abbrev pub AllOrdersAllowed : List Text → List OrderIntent → Type 0
AllOrdersAllowed allowed [] = Unit
AllOrdersAllowed allowed (o ∷ os) =
    (0 < quote_amount o) × (is_one_of o.asset allowed ≡ true) × AllOrdersAllowed allowed os

abbrev pub IsSigned : Option Text → Type 0
IsSigned none = ⊥
IsSigned (some []) = ⊥
IsSigned (some (b ∷ bs)) = Unit

validate_orders_iff :
    (allowed : List Text) (os : List OrderIntent)
    → (validate_orders allowed os ≡ done tt) ↔ AllOrdersAllowed allowed os
unfolding validate_orders validate_order
validate_orders_iff allowed [] = (λ _. tt, λ _. refl)
validate_orders_iff allowed (o ∷ os) = ground (arith, validate_orders_iff allowed os)

validate_signature_iff :
    (signature : Option Text) → (validate_signature signature ≡ done tt) ↔ IsSigned signature
unfolding validate_signature
validate_signature_iff none = ground arith
validate_signature_iff (some []) = ground arith
validate_signature_iff (some (b ∷ bs)) = ground arith

-- The expiry can be read and has not passed.
abbrev pub IsLive : ℕ → Option ℕ → Type 0
IsLive now none = ⊥
IsLive now (some t) = now ≤ t

module _ (parse_utc : Text → Option ℕ) (now : ℕ) where
  -- What the validator asks of an intent.
  pub record IsAcceptable (intent : ExecutionIntent) (signature : Option Text) : Type 0 where
    pub no_withdrawals : intent.constraints.allow_withdrawals ≡ false
    pub known_venue : is_one_of (to_lowercase intent.venue) supported_venues ≡ true
    pub small_slippage : intent.constraints.max_slippage_bps ≤ 100
    pub orders_allowed : AllOrdersAllowed intent.constraints.allowed_assets intent.orders
    pub signed : IsSigned signature
    pub live : IsLive now (parse_utc intent.constraints.expires_at)

  -- The validator accepts exactly the intents that enable no withdrawals, name a supported venue in
  -- any case, allow at most 100 basis points of slippage, order only positive amounts of allowed
  -- assets, come with a signature that is not empty, and expire at a readable time that is not past.
  pub validate_intent_iff :
      (intent : ExecutionIntent) (signature : Option Text)
      → (validate_intent parse_utc now intent signature ≡ done tt) ↔ IsAcceptable intent signature
  unfolding validate_intent
  validate_intent_iff intent signature =
      let orders = validate_orders_iff intent.constraints.allowed_assets intent.orders in
      let sign = validate_signature_iff signature in
      (
        λ d. record {
          no_withdrawals = ground (arith, d);
          known_venue = ground (arith, d);
          small_slippage = ground (arith, d);
          orders_allowed = orders.0 (ground (arith, d));
          signed = sign.0 (ground (arith, d));
          live = ground (arith, d);
        },
        λ a.
            rw
              (
                a.no_withdrawals,
                a.known_venue,
                le→leb intent.constraints.max_slippage_bps 100 a.small_slippage,
                orders.1 a.orders_allowed,
                sign.1 a.signed,
              )
              (ground (arith, a.live)),
      )
