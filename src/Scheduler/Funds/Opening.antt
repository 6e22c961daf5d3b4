-- ===== src/Scheduler/Funds/Opening.antt =====
-- Opening an intent: its fee has arrived with the call.
use xcron_protocol.Prelude.{ℕ, ◌+◌, ◌≤◌, List, arith, insert, inl, inr, total-insert}
use xcron_protocol.Framework.{Result-cases, Hash, Ctx, Ensures, u64}
use xcron_protocol.Common.{Intent, MultiIntent, MultiIntentOutcome, PreCognitiveIntent}
use xcron_protocol.Scheduler.State.{State}
use xcron_protocol.Scheduler.Intents.{
  receive_all, single_esdt, new_intent, new_multi_intent, new_pre_cognitive_intent, create_intent,
  create_multi_intent, create_pre_cognitive_intent,
}
use xcron_protocol.Scheduler.Calls.{state_of}
use xcron_protocol.Scheduler.Funds.Books.{
  Covers, fee_due, multi_fee_due, leaf_fee_due, receive_all-Covers,
}

module _ {S V : Type 0} where
  -- The three records of intents, with a new one that is owed at most `n`.
  insert_intent-Covers :
      (n id nonce : ℕ) (i : Intent) (s : State S V)
      → fee_due i ≤ n
      → Covers n s
      → Covers 0 (record s { intent_nonce = nonce; intent_by_id = insert id i s.intent_by_id })
  insert_intent-Covers n id nonce i s le h =
      ground (arith, total-insert fee_due id i s.intent_by_id)

  insert_multi-Covers :
      (n id nonce : ℕ) (i : MultiIntent) (s : State S V)
      → multi_fee_due i ≤ n
      → Covers n s
      → Covers 0 (record s {
        multi_intent_nonce = nonce;
        multi_intent_by_id = insert id i s.multi_intent_by_id;
      })
  insert_multi-Covers n id nonce i s le h =
      ground (arith, total-insert multi_fee_due id i s.multi_intent_by_id)

  insert_leaf-Covers :
      (n id nonce : ℕ) (i : PreCognitiveIntent) (s : State S V)
      → leaf_fee_due i ≤ n
      → Covers n s
      → Covers 0 (record s {
        pre_cognitive_intent_nonce = nonce;
        pre_cognitive_intent_by_id = insert id i s.pre_cognitive_intent_by_id;
      })
  insert_leaf-Covers n id nonce i s le h =
      ground (arith, total-insert leaf_fee_due id i s.pre_cognitive_intent_by_id)

  pub create_intent-Covers :
      (c : Ctx) (token_out min_return deadline fee : ℕ) (s : State S V)
      → Covers 0 s
      → Ensures (Covers 0) (state_of (create_intent c token_out min_return deadline fee s))
  unfolding create_intent
  create_intent-Covers c token_out min_return deadline fee s h =
      elim (Result-cases (single_esdt c.esdt)) [
        | inl (x, e) ↦ ground (arith, e)
        | inr (p, e) ↦
            let id = u64 (s.intent_nonce + 1) in
            let i = new_intent c id p token_out min_return deadline fee in
            ground (
              arith,
              e,
              insert_intent-Covers fee id id i (receive_all c s) (omega arith),
              receive_all-Covers c s h,
            )
      ]

  pub create_multi_intent-Covers :
      (c : Ctx) (outcomes : List MultiIntentOutcome) (deadline fee : ℕ) (s : State S V)
      → Covers 0 s
      → Ensures (Covers 0) (state_of (create_multi_intent c outcomes deadline fee s))
  unfolding create_multi_intent
  create_multi_intent-Covers c outcomes deadline fee s h =
      elim (Result-cases (single_esdt c.esdt)) [
        | inl (x, e) ↦ ground (arith, e)
        | inr (p, e) ↦
            let id = u64 (s.multi_intent_nonce + 1) in
            let i = new_multi_intent c id p outcomes deadline fee in
            ground (
              arith,
              e,
              insert_multi-Covers fee id id i (receive_all c s) (omega arith),
              receive_all-Covers c s h,
            )
      ]

  pub create_pre_cognitive_intent-Covers :
      (c : Ctx) (merkle_root : Hash) (deadline fee : ℕ) (s : State S V)
      → Covers 0 s
      → Ensures (Covers 0) (state_of (create_pre_cognitive_intent c merkle_root deadline fee s))
  unfolding create_pre_cognitive_intent
  create_pre_cognitive_intent-Covers c merkle_root deadline fee s h =
      elim (Result-cases (single_esdt c.esdt)) [
        | inl (x, e) ↦ ground (arith, e)
        | inr (p, e) ↦
            let id = u64 (s.pre_cognitive_intent_nonce + 1) in
            let i = new_pre_cognitive_intent c id p merkle_root deadline fee in
            ground (
              arith,
              e,
              insert_leaf-Covers fee id id i (receive_all c s) (omega arith),
              receive_all-Covers c s h,
            )
      ]
