-- ===== src/Scheduler/Intents/Multi.antt =====
-- `create_multi_intent`, `cancel_multi_intent` and `solve_multi_intent`.
use xcron_protocol.Prelude.{
  ℕ, ◌+◌, Bool, true, false, not, ◌&&◌, ◌||◌, none, some, List, [], ◌∷◌, leb, ltb, ◌==◌, length,
  lookup, insert, read_or,
}
use xcron_protocol.Framework.{
  Result, ok, ◌>>=◌, ◌>>◌, guard, or_abort, TokenId, Ctx, SetMapper, non_payable, u64, decode_error,
  egld_ne_fee, token_not_whitelisted, outcomes_empty, too_many_outcomes, duplicate_outcomes,
  only_owner_can_cancel, intent_not_pending, intent_expired, wrong_payment_count, wrong_token,
  slippage,
}
use xcron_protocol.Common.{IntentStatus, MultiIntent, MultiIntentOutcome}
use xcron_protocol.Scheduler.State.{State, require_not_paused, require_registered_keeper}
use xcron_protocol.Scheduler.Intents.Transfers.{
  intent_pending, single_esdt, require_deadline, receive_all, direct_esdt, pay_fee, distribute,
}

-- The inner loop: whether a token occurs among the later outcomes.
abbrev pub occurs : TokenId → List MultiIntentOutcome → Bool
occurs token [] = false
occurs token (o ∷ os) = token == o.token_out || occurs token os

abbrev pub distinct_tokens : List MultiIntentOutcome → Bool
distinct_tokens [] = true
distinct_tokens (o ∷ os) = not (occurs o.token_out os) && distinct_tokens os

-- The loop over the outcomes and the payments in parallel; the lengths have been compared.
unfoldable pub require_outcomes : List (TokenId × ℕ) → List MultiIntentOutcome → Result (Unit {0})
require_outcomes [] os = ok tt
require_outcomes (p ∷ ps) [] = ok tt
require_outcomes ((token, amount) ∷ ps) (o ∷ os) = do
  guard (token == o.token_out) wrong_token
  guard (leb o.min_return amount) slippage
  require_outcomes ps os

abbrev pub new_multi_intent : Ctx → ℕ → TokenId × ℕ → List MultiIntentOutcome → ℕ → ℕ → MultiIntent
new_multi_intent c id (token_in, amount_in) outcomes deadline solver_fee = record {
  id = id;
  owner = c.caller;
  token_in = token_in;
  amount_in = amount_in;
  outcomes = outcomes;
  deadline = deadline;
  solver_fee = solver_fee;
  status = IntentStatus.pending;
  settled_by = none;
}

module _ {S V : Type 0} where
  unfoldable pub create_multi_intent :
      Ctx → List MultiIntentOutcome → ℕ → ℕ → State S V → Result (ℕ × State S V)
  create_multi_intent c outcomes deadline solver_fee s = do
    require_not_paused s
    guard (c.egld == solver_fee) egld_ne_fee
    transfer ← single_esdt c.esdt
    guard (read_or false transfer.0 s.accepted_payment_tokens) token_not_whitelisted
    guard (ltb 0 (length outcomes)) outcomes_empty
    guard (leb (length outcomes) 5) too_many_outcomes
    guard (distinct_tokens outcomes) duplicate_outcomes
    require_deadline c deadline
    let id = u64 (s.multi_intent_nonce + 1)
    let intent = new_multi_intent c id transfer outcomes deadline solver_fee
    let s1 = receive_all c s
    ok (
      id,
      record s1 {
        multi_intent_nonce = id;
        multi_intent_by_id = insert id intent s1.multi_intent_by_id;
      },
    )

  unfoldable pub cancel_multi_intent : Ctx → ℕ → State S V → Result (State S V)
  cancel_multi_intent c id s = do
    non_payable c
    intent ← or_abort (lookup id s.multi_intent_by_id) decode_error
    guard (intent.owner == c.caller) only_owner_can_cancel
    guard (intent_pending intent.status) intent_not_pending
    let cancelled = record s {
      multi_intent_by_id =
          insert id (record intent { status = IntentStatus.cancelled }) s.multi_intent_by_id;
    }
    refunded ← direct_esdt c.caller intent.token_in intent.amount_in cancelled
    pay_fee c.caller intent.solver_fee refunded

module _ {S V : Type 0} ⦃sets : SetMapper S⦄ where
  unfoldable pub solve_multi_intent : Ctx → ℕ → State S V → Result (State S V)
  solve_multi_intent c id s = do
    require_registered_keeper c.caller s
    intent ← or_abort (lookup id s.multi_intent_by_id) decode_error
    guard (intent_pending intent.status) intent_not_pending
    guard (leb c.timestamp intent.deadline) intent_expired
    guard (length c.esdt == length intent.outcomes) wrong_payment_count
    require_outcomes c.esdt intent.outcomes
    let settled = record intent { status = IntentStatus.settled; settled_by = some c.caller }
    let s1 = receive_all c s
    let s2 = record s1 { multi_intent_by_id = insert id settled s1.multi_intent_by_id }
    delivered ← distribute intent.owner c.esdt s2
    released ← direct_esdt c.caller intent.token_in intent.amount_in delivered
    pay_fee c.caller intent.solver_fee released
