-- ===== src/Scheduler/Intents/PreCognitive.antt =====
-- `create_pre_cognitive_intent`, `cancel_pre_cognitive_intent` and `execute_pre_cognitive_leaf`.
use xcron_protocol.Prelude.{
  ℕ, ◌+◌, ◌++◌, none, some, List, [], ◌∷◌, leb, ltb, ◌==◌, length, be_bytes, lookup, insert,
}
use xcron_protocol.Framework.{
  Result, ok, ◌>>=◌, ◌>>◌, guard, or_abort, Address, TokenId, Hash, Ctx, SetMapper, non_payable,
  u64, u32, decode_error, egld_ne_fee, zero_amount_in, only_owner_can_cancel, intent_not_pending,
  intent_expired, invalid_merkle_proof, wrong_token, slippage,
}
use xcron_protocol.Common.{Buffer, PreCognitiveIntentStatus, PreCognitiveIntent}
use xcron_protocol.Merkle.Proof.{verify_merkle_proof}
use xcron_protocol.Scheduler.Environment.{Env}
use xcron_protocol.Scheduler.State.{State, require_not_paused, require_registered_keeper}
use xcron_protocol.Scheduler.Intents.Transfers.{
  leaf_pending, single_esdt, require_deadline, receive_all, direct_esdt, pay_fee,
}

-- The parameters of a leaf, as the keeper passes them.
pub record Leaf : Type 0 where
  pub target_contract : Address
  pub target_endpoint : Buffer
  pub target_args : List Buffer
  pub expected_token_out : TokenId
  pub min_return : ℕ

-- Each argument is appended behind its length in four bytes.
abbrev pub append_args : List Buffer → Buffer → Buffer
append_args [] b = b
append_args (arg ∷ args) b = append_args args (b ++ (be_bytes 4 (u32 (length arg)) ++ arg))

-- The leaf hash: of what the five encodings into one buffer leave in it.
unfoldable pub leaf_hash : Env → Leaf → Hash
leaf_hash env leaf =
    let encoded =
      env.encode_buffer leaf.target_endpoint (env.encode_address leaf.target_contract []) in
    let with_args = append_args leaf.target_args encoded in
    env.sha256
      (env.encode_number leaf.min_return (env.encode_token leaf.expected_token_out with_args))

abbrev pub new_pre_cognitive_intent : Ctx → ℕ → TokenId × ℕ → Hash → ℕ → ℕ → PreCognitiveIntent
new_pre_cognitive_intent c id (token_in, amount_in) merkle_root deadline keeper_fee = record {
  id = id;
  owner = c.caller;
  token_in = token_in;
  amount_in = amount_in;
  merkle_root = merkle_root;
  deadline = deadline;
  keeper_fee = keeper_fee;
  status = PreCognitiveIntentStatus.pending;
  executed_by = none;
}

module _ {S V : Type 0} where
  unfoldable pub create_pre_cognitive_intent :
      Ctx → Hash → ℕ → ℕ → State S V → Result (ℕ × State S V)
  create_pre_cognitive_intent c merkle_root deadline keeper_fee s = do
    require_not_paused s
    guard (c.egld == keeper_fee) egld_ne_fee
    transfer ← single_esdt c.esdt
    guard (ltb 0 transfer.1) zero_amount_in
    require_deadline c deadline
    let id = u64 (s.pre_cognitive_intent_nonce + 1)
    let intent = new_pre_cognitive_intent c id transfer merkle_root deadline keeper_fee
    let s1 = receive_all c s
    ok (
      id,
      record s1 {
        pre_cognitive_intent_nonce = id;
        pre_cognitive_intent_by_id = insert id intent s1.pre_cognitive_intent_by_id;
      },
    )

  unfoldable pub cancel_pre_cognitive_intent : Ctx → ℕ → State S V → Result (State S V)
  cancel_pre_cognitive_intent c id s = do
    non_payable c
    intent ← or_abort (lookup id s.pre_cognitive_intent_by_id) decode_error
    guard (intent.owner == c.caller) only_owner_can_cancel
    guard (leaf_pending intent.status) intent_not_pending
    let cancelled = record s {
      pre_cognitive_intent_by_id =
          insert id (record intent { status = PreCognitiveIntentStatus.cancelled })
            s.pre_cognitive_intent_by_id;
    }
    refunded ← direct_esdt c.caller intent.token_in intent.amount_in cancelled
    pay_fee c.caller intent.keeper_fee refunded

module _ {S V : Type 0} ⦃sets : SetMapper S⦄ where
  unfoldable pub execute_pre_cognitive_leaf :
      Env → Ctx → ℕ → List Hash → Leaf → State S V → Result (State S V)
  execute_pre_cognitive_leaf env c id proof leaf s = do
    require_registered_keeper c.caller s
    intent ← or_abort (lookup id s.pre_cognitive_intent_by_id) decode_error
    guard (leaf_pending intent.status) intent_not_pending
    guard (leb c.timestamp intent.deadline) intent_expired
    guard (verify_merkle_proof env.sha256 (leaf_hash env leaf) proof intent.merkle_root)
        invalid_merkle_proof
    payment ← single_esdt c.esdt
    guard (payment.0 == leaf.expected_token_out) wrong_token
    guard (leb leaf.min_return payment.1) slippage
    let executed = record intent {
      status = PreCognitiveIntentStatus.executed;
      executed_by = some c.caller;
    }
    let s1 = receive_all c s
    let s2 = record s1 {
      pre_cognitive_intent_by_id = insert id executed s1.pre_cognitive_intent_by_id;
    }
    delivered ← direct_esdt intent.owner payment.0 payment.1 s2
    released ← direct_esdt c.caller intent.token_in intent.amount_in delivered
    pay_fee c.caller intent.keeper_fee released
