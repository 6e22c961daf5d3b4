-- ===== src/Scheduler/Lifecycle/Trading.antt =====
-- What pre-cognitive intents deliver, to whom, and that they are closed once:
-- `execute_pre_cognitive_leaf` and `cancel_pre_cognitive_intent` of contracts/scheduler/src/intents.rs.
use xcron_protocol.Prelude.{
  ℕ, ◌≤◌, ◌≡◌, ◌++◌, true, false, some, List, [], ◌∷◌, arith, ltb, if◌then◌else◌, lookup, read,
  Option-cases, inl, inr, refl, lookup-insert, share-le-total,
}
use xcron_protocol.Framework.{
  ok, Address, Hash, TokenId, Ctx, Message, send_egld, send_esdt, receive, SetMapper, Ensures,
  Ensures-ok, Returns, Returns-map, is_ok, Result-cases, direct_egld,
}
use xcron_protocol.Common.{PreCognitiveIntentStatus, PreCognitiveIntent}
use xcron_protocol.Merkle.Proof.{verify_merkle_proof}
use xcron_protocol.Scheduler.Environment.{Env}
use xcron_protocol.Scheduler.State.{State}
use xcron_protocol.Scheduler.Intents.{
  leaf_pending, single_esdt, direct_esdt, cancel_pre_cognitive_intent, execute_pre_cognitive_leaf,
  Leaf, leaf_hash,
}
use xcron_protocol.Scheduler.Funds.Books.{Covers, leaf_fee_due}
use xcron_protocol.Scheduler.Funds.Closing.{receive_esdt-keeps}

-- The message that pays a fee, where there is one.
abbrev pub fee_message : Address → ℕ → List Message
fee_message to fee = if ltb 0 fee then send_egld to fee ∷ [] else []

single_esdt-only :
    (payments : List (TokenId × ℕ)) (p : TokenId × ℕ)
    → single_esdt payments ≡ ok p
    → payments ≡ p ∷ []
single_esdt-only [] p e = ground (arith, e)
single_esdt-only (q ∷ []) p e = ground (arith, e)
single_esdt-only (q ∷ r ∷ rest) p e = ground (arith, e)

module _ {S V : Type 0} where
  -- The caller of `c` executed the leaf of the intent, and paid `paid` of the token that it names.
  pub record Executes (env : Env) (c : Ctx) (id : ℕ) (proof : List Hash) (leaf : Leaf)
      (i : PreCognitiveIntent) (paid : ℕ) (s s' : State S V) : Type 0 where
    pub was_pending : leaf_pending i.status ≡ true
    pub in_time : c.timestamp ≤ i.deadline
    pub proved : verify_merkle_proof env.sha256 (leaf_hash env leaf) proof i.merkle_root ≡ true
    pub payment : c.esdt ≡ (leaf.expected_token_out, paid) ∷ []
    pub enough : leaf.min_return ≤ paid
    pub sent :
        s'.account.outbox
        ≡ fee_message c.caller i.keeper_fee
          ++ (send_esdt c.caller i.token_in i.amount_in
              ∷ send_esdt i.owner leaf.expected_token_out paid
              ∷ s.account.outbox)
    pub closed :
        lookup id s'.pre_cognitive_intent_by_id
        ≡ some
            (record i { status = PreCognitiveIntentStatus.executed; executed_by = some c.caller })

module _ {S V : Type 0} ⦃sets : SetMapper S⦄ where
  leaf_single_payment :
      (env : Env) (c : Ctx) (id : ℕ) (proof : List Hash) (leaf : Leaf) (i : PreCognitiveIntent)
      (p : TokenId × ℕ) (s : State S V)
      → lookup id s.pre_cognitive_intent_by_id ≡ some i
      → single_esdt c.esdt ≡ ok p
      → Ensures
          (Executes env c id proof leaf i p.1 s)
          (execute_pre_cognitive_leaf env c id proof leaf s)
  unfolding execute_pre_cognitive_leaf direct_esdt direct_egld
  leaf_single_payment env c id proof leaf i p s e r =
      let keeps = receive_esdt-keeps c.esdt (record s { account = receive c s.account }) in
      let executed = record i {
        status = PreCognitiveIntentStatus.executed;
        executed_by = some c.caller;
      } in
      ground (
        arith,
        e,
        r,
        single_esdt-only c.esdt p r,
        keeps,
        lookup-insert id id executed s.pre_cognitive_intent_by_id,
      )

  -- A leaf is executed only for a pending intent, not after its deadline, with a proof that it is under
  -- the root that the owner committed to, and by a caller who sends exactly one payment, of the token
  -- that the leaf names and of at least the minimum that it asks for. The owner is sent all of this
  -- payment, the caller the owner's tokens and the fee, nothing else is sent, and the intent is closed
  -- in the caller's name.
  pub execute_pre_cognitive_leaf-Executes :
      (env : Env) (c : Ctx) (id : ℕ) (proof : List Hash) (leaf : Leaf) (s s' : State S V)
      → execute_pre_cognitive_leaf env c id proof leaf s ≡ ok s'
      → (i : PreCognitiveIntent) × (paid : ℕ) × (lookup id s.pre_cognitive_intent_by_id ≡ some i)
        × Executes env c id proof leaf i paid s s'
  unfolding execute_pre_cognitive_leaf
  execute_pre_cognitive_leaf-Executes env c id proof leaf s s' done =
      elim (Option-cases (lookup id s.pre_cognitive_intent_by_id)) [
        | inl e ↦ ground (arith, e)
        | inr (i, e) ↦ elim (Result-cases (single_esdt c.esdt)) [
          | inl (x, r) ↦ ground (arith, e, r)
          | inr (p, r) ↦ (
            i,
            p.1,
            e,
            Ensures-ok (Executes env c id proof leaf i p.1 s)
                (execute_pre_cognitive_leaf env c id proof leaf s)
                (leaf_single_payment env c id proof leaf i p s e r) done,
          )
        ]
      ]

  closed_aborts :
      (env : Env) (c : Ctx) (id : ℕ) (proof : List Hash) (leaf : Leaf) (i : PreCognitiveIntent)
      (s : State S V)
      → lookup id s.pre_cognitive_intent_by_id ≡ some i
      → leaf_pending i.status ≡ false
      → (is_ok (cancel_pre_cognitive_intent c id s) ≡ false)
        × (is_ok (execute_pre_cognitive_leaf env c id proof leaf s) ≡ false)
  unfolding cancel_pre_cognitive_intent execute_pre_cognitive_leaf
  closed_aborts env c id proof leaf i s e closed = ground (arith, e, closed)

  cancelled_pays :
      (c : Ctx) (id : ℕ) (i : PreCognitiveIntent) (s : State S V)
      → Covers 0 s
      → lookup id s.pre_cognitive_intent_by_id ≡ some i
      → leaf_pending i.status ≡ true
      → c.caller ≡ i.owner
      → c.egld ≡ 0
      → i.amount_in ≤ read i.token_in s.tokens
      → Returns
          (λ s'.
            (s'.account.outbox
              ≡ fee_message i.owner i.keeper_fee
                ++ (send_esdt i.owner i.token_in i.amount_in ∷ s.account.outbox))
            × (lookup id s'.pre_cognitive_intent_by_id
                ≡ some (record i { status = PreCognitiveIntentStatus.cancelled })))
          (cancel_pre_cognitive_intent c id s)
  unfolding cancel_pre_cognitive_intent direct_esdt direct_egld
  cancelled_pays c id i s h e pending own free held =
      let cancelled = record i { status = PreCognitiveIntentStatus.cancelled } in
      ground (
        arith,
        h,
        e,
        pending,
        own,
        free,
        held,
        share-le-total leaf_fee_due id s.pre_cognitive_intent_by_id,
        lookup-insert id id cancelled s.pre_cognitive_intent_by_id,
      )

  -- The owner of a pending intent can cancel it at any time, deadline or not, in a Scheduler whose
  -- EGLD covers what it owes and that holds the tokens: the tokens and the whole fee come back to
  -- the owner, and nothing else is sent. The intent is then closed: in the state that this leaves
  -- nobody can cancel it again, or execute a leaf of it.
  pub cancel_pre_cognitive_intent_refunds :
      (c : Ctx) (id : ℕ) (i : PreCognitiveIntent) (s : State S V)
      → Covers 0 s
      → lookup id s.pre_cognitive_intent_by_id ≡ some i
      → leaf_pending i.status ≡ true
      → c.caller ≡ i.owner
      → c.egld ≡ 0
      → i.amount_in ≤ read i.token_in s.tokens
      → Returns
          (λ s'.
            (s'.account.outbox
              ≡ fee_message i.owner i.keeper_fee
                ++ (send_esdt i.owner i.token_in i.amount_in ∷ s.account.outbox))
            × ((env : Env) (c' : Ctx) (proof : List Hash) (leaf : Leaf)
                → (is_ok (cancel_pre_cognitive_intent c' id s') ≡ false)
                  × (is_ok (execute_pre_cognitive_leaf env c' id proof leaf s') ≡ false)))
          (cancel_pre_cognitive_intent c id s)
  cancel_pre_cognitive_intent_refunds c id i s h e pending own free held =
      Returns-map (cancel_pre_cognitive_intent c id s)
        (cancelled_pays c id i s h e pending own free held)
        (λ s' paid.
          (paid.0, λ env c' proof leaf. closed_aborts env c' id proof leaf _ s' paid.1 refl))
