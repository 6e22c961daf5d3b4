-- ===== src/Scheduler/Intents/Single.antt =====
-- `create_intent`, `cancel_intent` and `solve_intent`.
use xcron_protocol.Prelude.{ℕ, ◌+◌, false, none, some, leb, ltb, ◌==◌, lookup, insert, read_or}
use xcron_protocol.Framework.{
  Result, ok, ◌>>=◌, ◌>>◌, guard, or_abort, TokenId, Ctx, SetMapper, non_payable, u64, decode_error,
  egld_ne_fee, zero_amount_in, token_not_whitelisted, only_owner_can_cancel, intent_not_pending,
  intent_expired, wrong_token, slippage,
}
use xcron_protocol.Common.{IntentStatus, Intent}
use xcron_protocol.Scheduler.State.{State, require_not_paused, require_registered_keeper}
use xcron_protocol.Scheduler.Intents.Transfers.{
  intent_pending, single_esdt, require_deadline, receive_all, direct_esdt, pay_fee,
}

abbrev pub new_intent : Ctx → ℕ → TokenId × ℕ → TokenId → ℕ → ℕ → ℕ → Intent
new_intent c id (token_in, amount_in) token_out min_return deadline solver_fee = record {
  id = id;
  owner = c.caller;
  token_in = token_in;
  amount_in = amount_in;
  token_out = token_out;
  min_return = min_return;
  deadline = deadline;
  solver_fee = solver_fee;
  status = IntentStatus.pending;
  settled_by = none;
}

module _ {S V : Type 0} where
  unfoldable pub create_intent : Ctx → TokenId → ℕ → ℕ → ℕ → State S V → Result (ℕ × State S V)
  create_intent c token_out min_return deadline solver_fee s = do
    require_not_paused s
    guard (c.egld == solver_fee) egld_ne_fee
    transfer ← single_esdt c.esdt
    guard (ltb 0 transfer.1) zero_amount_in
    guard (read_or false transfer.0 s.accepted_payment_tokens) token_not_whitelisted
    require_deadline c deadline
    let id = u64 (s.intent_nonce + 1)
    let intent = new_intent c id transfer token_out min_return deadline solver_fee
    let s1 = receive_all c s
    ok (id, record s1 { intent_nonce = id; intent_by_id = insert id intent s1.intent_by_id })

  unfoldable pub cancel_intent : Ctx → ℕ → State S V → Result (State S V)
  cancel_intent c id s = do
    non_payable c
    intent ← or_abort (lookup id s.intent_by_id) decode_error
    guard (intent.owner == c.caller) only_owner_can_cancel
    guard (intent_pending intent.status) intent_not_pending
    let cancelled = record s {
      intent_by_id = insert id (record intent { status = IntentStatus.cancelled }) s.intent_by_id;
    }
    refunded ← direct_esdt c.caller intent.token_in intent.amount_in cancelled
    pay_fee c.caller intent.solver_fee refunded

module _ {S V : Type 0} ⦃sets : SetMapper S⦄ where
  unfoldable pub solve_intent : Ctx → ℕ → State S V → Result (State S V)
  solve_intent c id s = do
    require_registered_keeper c.caller s
    intent ← or_abort (lookup id s.intent_by_id) decode_error
    guard (intent_pending intent.status) intent_not_pending
    guard (leb c.timestamp intent.deadline) intent_expired
    payment ← single_esdt c.esdt
    guard (payment.0 == intent.token_out) wrong_token
    guard (leb intent.min_return payment.1) slippage
    let settled = record intent { status = IntentStatus.settled; settled_by = some c.caller }
    let s1 = receive_all c s
    let s2 = record s1 { intent_by_id = insert id settled s1.intent_by_id }
    delivered ← direct_esdt intent.owner payment.0 payment.1 s2
    released ← direct_esdt c.caller intent.token_in intent.amount_in delivered
    pay_fee c.caller intent.solver_fee released
