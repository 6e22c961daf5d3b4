-- ===== src/Scheduler/Funds/Closing.antt =====
-- Closing an intent: what is owed for it pays its fee.
use xcron_protocol.Prelude.{
  ℕ, ◌+◌, ◌≡◌, some, List, [], ◌∷◌, arith, lookup, insert, read, Option-cases, inl, inr, refl,
  total-insert,
}
use xcron_protocol.Framework.{
  ◌>>=◌, Address, TokenId, Hash, Ctx, SetMapper, Ensures, Ensures-bind, Result-cases, receive,
}
use xcron_protocol.Common.{
  IntentStatus, Intent, MultiIntent, PreCognitiveIntent, PreCognitiveIntentStatus,
}
use xcron_protocol.Scheduler.State.{State}
use xcron_protocol.Scheduler.Intents.{
  single_esdt, receive_esdt, receive_all, direct_esdt, distribute, pay_fee, cancel_intent,
  solve_intent, cancel_multi_intent, solve_multi_intent, cancel_pre_cognitive_intent,
  execute_pre_cognitive_leaf, Leaf,
}
use xcron_protocol.Scheduler.Environment.{Env}
use xcron_protocol.Scheduler.Funds.Books.{
  Covers, fee_due, multi_fee_due, leaf_fee_due, direct_esdt-Covers, receive_all-Covers,
  release-Covers, distribute-Covers,
}

module _ {S V : Type 0} where
  -- What is no longer pending frees its fee.
  close_intent-Covers :
      (n id : ℕ) (i closed : Intent) (s : State S V)
      → lookup id s.intent_by_id ≡ some i
      → fee_due closed ≡ 0
      → Covers n s
      → Covers (fee_due i) (record s { intent_by_id = insert id closed s.intent_by_id })
  close_intent-Covers n id i closed s e z h =
      ground (arith, e, total-insert fee_due id closed s.intent_by_id)

  -- What is no longer pending frees its fee.
  close_multi-Covers :
      (n id : ℕ) (i closed : MultiIntent) (s : State S V)
      → lookup id s.multi_intent_by_id ≡ some i
      → multi_fee_due closed ≡ 0
      → Covers n s
      → Covers
          (multi_fee_due i)
          (record s { multi_intent_by_id = insert id closed s.multi_intent_by_id })
  close_multi-Covers n id i closed s e z h =
      ground (arith, e, total-insert multi_fee_due id closed s.multi_intent_by_id)

  -- What is no longer pending frees its fee.
  close_leaf-Covers :
      (n id : ℕ) (i closed : PreCognitiveIntent) (s : State S V)
      → lookup id s.pre_cognitive_intent_by_id ≡ some i
      → leaf_fee_due closed ≡ 0
      → Covers n s
      → Covers
          (leaf_fee_due i)
          (record s { pre_cognitive_intent_by_id = insert id closed s.pre_cognitive_intent_by_id })
  close_leaf-Covers n id i closed s e z h =
      ground (arith, e, total-insert leaf_fee_due id closed s.pre_cognitive_intent_by_id)

  pub cancel_intent-Covers :
      (c : Ctx) (id : ℕ) (s : State S V) → Covers 0 s → Ensures (Covers 0) (cancel_intent c id s)
  unfolding cancel_intent
  cancel_intent-Covers c id s h = elim (Option-cases (lookup id s.intent_by_id)) [
    | inl e ↦ ground (arith, e)
    | inr (i, e) ↦
        let cancelled = record i { status = IntentStatus.cancelled } in
        let closed = record s { intent_by_id = insert id cancelled s.intent_by_id } in
        ground (
          arith,
          e,
          close_intent-Covers 0 id i cancelled s e refl h,
          release-Covers c.caller i.token_in i.amount_in i.solver_fee closed,
        )
  ]

  pub cancel_multi_intent-Covers :
      (c : Ctx) (id : ℕ) (s : State S V)
      → Covers 0 s
      → Ensures (Covers 0) (cancel_multi_intent c id s)
  unfolding cancel_multi_intent
  cancel_multi_intent-Covers c id s h = elim (Option-cases (lookup id s.multi_intent_by_id)) [
    | inl e ↦ ground (arith, e)
    | inr (i, e) ↦
        let cancelled = record i { status = IntentStatus.cancelled } in
        let closed = record s { multi_intent_by_id = insert id cancelled s.multi_intent_by_id } in
        ground (
          arith,
          e,
          close_multi-Covers 0 id i cancelled s e refl h,
          release-Covers c.caller i.token_in i.amount_in i.solver_fee closed,
        )
  ]

  pub cancel_pre_cognitive_intent-Covers :
      (c : Ctx) (id : ℕ) (s : State S V)
      → Covers 0 s
      → Ensures (Covers 0) (cancel_pre_cognitive_intent c id s)
  unfolding cancel_pre_cognitive_intent
  cancel_pre_cognitive_intent-Covers c id s h =
      elim (Option-cases (lookup id s.pre_cognitive_intent_by_id)) [
        | inl e ↦ ground (arith, e)
        | inr (i, e) ↦
            let cancelled = record i { status = PreCognitiveIntentStatus.cancelled } in
            let closed = record s {
              pre_cognitive_intent_by_id = insert id cancelled s.pre_cognitive_intent_by_id;
            } in
            ground (
              arith,
              e,
              close_leaf-Covers 0 id i cancelled s e refl h,
              release-Covers c.caller i.token_in i.amount_in i.keeper_fee closed,
            )
      ]

  -- A delivery to the owner, the owner's tokens, and the fee.
  deliver-Covers :
      (owner token paid to token_in amount fee : ℕ) (s : State S V)
      → Covers fee s
      → Ensures (Covers 0) (
          direct_esdt owner token paid s >>= λ d.
          direct_esdt to token_in amount d >>= pay_fee to fee)
  deliver-Covers owner token paid to token_in amount fee s h =
      Ensures-bind (Covers fee) (Covers 0) (direct_esdt owner token paid s) _
        (direct_esdt-Covers fee owner token paid s h) (release-Covers to token_in amount fee)

  -- The payments leave the intents and the account alone.
  pub receive_esdt-keeps :
      (payments : List (TokenId × ℕ)) (s : State S V)
      → ((receive_esdt payments s).intent_by_id ≡ s.intent_by_id)
        × ((receive_esdt payments s).multi_intent_by_id ≡ s.multi_intent_by_id)
        × ((receive_esdt payments s).pre_cognitive_intent_by_id ≡ s.pre_cognitive_intent_by_id)
        × ((receive_esdt payments s).account ≡ s.account)
  unfolding receive_esdt
  receive_esdt-keeps [] s = (refl, refl, refl, refl)
  receive_esdt-keeps ((token, amount) ∷ rest) s =
      receive_esdt-keeps rest
        (record s { tokens = insert token (read token s.tokens + amount) s.tokens })

  distribute_all-Covers :
      (owner : Address) (payments : List (TokenId × ℕ)) (to token_in amount fee : ℕ) (s : State S V)
      → Covers fee s
      → Ensures
          (Covers 0)
          (distribute owner payments s >>= λ d. direct_esdt to token_in amount d >>= pay_fee to fee)
  distribute_all-Covers owner payments to token_in amount fee s h =
      Ensures-bind (Covers fee) (Covers 0) (distribute owner payments s) _
        (distribute-Covers fee owner payments s h) (release-Covers to token_in amount fee)

module _ {S V : Type 0} ⦃sets : SetMapper S⦄ where
  pub solve_intent-Covers :
      (c : Ctx) (id : ℕ) (s : State S V) → Covers 0 s → Ensures (Covers 0) (solve_intent c id s)
  unfolding solve_intent
  solve_intent-Covers c id s h = elim (Option-cases (lookup id s.intent_by_id)) [
    | inl e ↦ ground (arith, e)
    | inr (i, e) ↦
        let closed = record i { status = IntentStatus.settled; settled_by = some c.caller } in
        let s1 = receive_all c s in
        let s2 = record s1 { intent_by_id = insert id closed s1.intent_by_id } in
        let keeps = receive_esdt-keeps c.esdt (record s { account = receive c s.account }) in
        let freed =
          close_intent-Covers c.egld id i closed s1 (ground (arith, e, keeps)) refl
            (receive_all-Covers c s h) in
        elim (Result-cases (single_esdt c.esdt)) [
          | inl (x, r) ↦ ground (arith, e, r)
          | inr (p, r) ↦ ground (
            arith,
            e,
            r,
            freed,
            deliver-Covers i.owner p.0 p.1 c.caller i.token_in i.amount_in i.solver_fee s2,
          )
        ]
  ]

  pub solve_multi_intent-Covers :
      (c : Ctx) (id : ℕ) (s : State S V)
      → Covers 0 s
      → Ensures (Covers 0) (solve_multi_intent c id s)
  unfolding solve_multi_intent
  solve_multi_intent-Covers c id s h = elim (Option-cases (lookup id s.multi_intent_by_id)) [
    | inl e ↦ ground (arith, e)
    | inr (i, e) ↦
        let closed = record i { status = IntentStatus.settled; settled_by = some c.caller } in
        let s1 = receive_all c s in
        let s2 = record s1 { multi_intent_by_id = insert id closed s1.multi_intent_by_id } in
        let keeps = receive_esdt-keeps c.esdt (record s { account = receive c s.account }) in
        let freed =
          close_multi-Covers c.egld id i closed s1 (ground (arith, e, keeps)) refl
            (receive_all-Covers c s h) in
        ground (
          arith,
          e,
          freed,
          distribute_all-Covers i.owner c.esdt c.caller i.token_in i.amount_in i.solver_fee s2,
        )
  ]

  pub execute_pre_cognitive_leaf-Covers :
      (env : Env) (c : Ctx) (id : ℕ) (proof : List Hash) (leaf : Leaf) (s : State S V)
      → Covers 0 s
      → Ensures (Covers 0) (execute_pre_cognitive_leaf env c id proof leaf s)
  unfolding execute_pre_cognitive_leaf
  execute_pre_cognitive_leaf-Covers env c id proof leaf s h =
      elim (Option-cases (lookup id s.pre_cognitive_intent_by_id)) [
        | inl e ↦ ground (arith, e)
        | inr (i, e) ↦
            let closed = record i {
              status = PreCognitiveIntentStatus.executed;
              executed_by = some c.caller;
            } in
            let s1 = receive_all c s in
            let s2 = record s1 {
              pre_cognitive_intent_by_id = insert id closed s1.pre_cognitive_intent_by_id;
            } in
            let keeps = receive_esdt-keeps c.esdt (record s { account = receive c s.account }) in
            let freed =
              close_leaf-Covers c.egld id i closed s1 (ground (arith, e, keeps)) refl
                (receive_all-Covers c s h) in
            elim (Result-cases (single_esdt c.esdt)) [
              | inl (x, r) ↦ ground (arith, e, r)
              | inr (p, r) ↦ ground (
                arith,
                e,
                r,
                freed,
                deliver-Covers i.owner p.0 p.1 c.caller i.token_in i.amount_in i.keeper_fee s2,
              )
            ]
      ]
