-- ===== src/Scheduler/Funds/Books.antt =====
-- The EGLD that the Scheduler owes: deposits of open tasks, unspent budgets of Clone-Keys, accrued
-- fees, and the fees of pending intents.
use xcron_protocol.Prelude.{
  ℕ, ◌+◌, ◌≤◌, Bool, List, [], ◌∷◌, arith, if◌then◌else◌, Distinct, AllValues, total,
}
use xcron_protocol.Framework.{◌>>=◌, TokenId, Ensures, Ensures-bind, Ctx, receive, direct_egld}
use xcron_protocol.Common.{
  CloneKeyProperties, max_clone_key_spend_limit, QuantumTaskState, Intent, MultiIntent,
  PreCognitiveIntent,
}
use xcron_protocol.Scheduler.State.{State, pay, forward_keeper_result}
use xcron_protocol.Scheduler.CloneKeys.{unspent}
use xcron_protocol.Scheduler.Intents.{
  intent_pending, leaf_pending, receive_esdt, receive_all, direct_esdt, distribute, pay_fee,
}

abbrev pub deposit_of : QuantumTaskState → ℕ
deposit_of t = t.deposit

abbrev pub fee_due : Intent → ℕ
fee_due i = if intent_pending i.status then i.solver_fee else 0

abbrev pub multi_fee_due : MultiIntent → ℕ
multi_fee_due i = if intent_pending i.status then i.solver_fee else 0

abbrev pub leaf_fee_due : PreCognitiveIntent → ℕ
leaf_fee_due i = if leaf_pending i.status then i.keeper_fee else 0

-- A Clone-Key spends within its limit, and the limit is capped.
abbrev pub IsWithin : CloneKeyProperties → Type 0
IsWithin props =
    (props.spent_amount ≤ props.spend_limit) × (props.spend_limit ≤ max_clone_key_spend_limit)

module _ {S V : Type 0} where
  abbrev pub dues : State S V → ℕ
  dues s =
      total deposit_of s.quantum_tasks
      + total unspent s.clone_key_props
      + total fee_due s.intent_by_id
      + total multi_fee_due s.multi_intent_by_id
      + total leaf_fee_due s.pre_cognitive_intent_by_id
      + s.accrued_protocol_fees

  -- The balance covers what is owed, and `n` more.
  pub record Covers (n : ℕ) (s : State S V) : Type 0 where
    pub tasks_distinct : Distinct s.quantum_tasks
    pub keys_distinct : Distinct s.clone_key_props
    pub keys_within : AllValues IsWithin s.clone_key_props
    pub fee_capped : s.protocol_fee_bps ≤ 10000
    pub covered : dues s + n ≤ s.account.balance

  pub pay-Covers :
      (n to amount : ℕ) (s : State S V)
      → Covers (n + amount) s
      → Ensures (Covers n) (pay to amount s)
  unfolding direct_egld
  pay-Covers n to amount s h = ground arith

  pub pay_fee-Covers :
      (to fee : ℕ) (s : State S V) → Covers fee s → Ensures (Covers 0) (pay_fee to fee s)
  unfolding direct_egld
  pay_fee-Covers to fee s h = ground arith

  pub forward_keeper_result-Covers :
      (n keeper : ℕ) (success : Bool) (s : State S V)
      → Covers n s
      → Covers n (forward_keeper_result keeper success s)
  forward_keeper_result-Covers n keeper success s h = ground arith

  pub receive_esdt-Covers :
      (n : ℕ) (payments : List (TokenId × ℕ)) (s : State S V)
      → Covers n s
      → Covers n (receive_esdt payments s)
  unfolding receive_esdt
  receive_esdt-Covers n [] s h = h
  receive_esdt-Covers n ((token, amount) ∷ rest) s h = receive_esdt-Covers n rest _ (ground arith)

  pub direct_esdt-Covers :
      (n to token amount : ℕ) (s : State S V)
      → Covers n s
      → Ensures (Covers n) (direct_esdt to token amount s)
  unfolding direct_esdt
  direct_esdt-Covers n to token amount s h = ground arith

  pub distribute-Covers :
      (n to : ℕ) (payments : List (TokenId × ℕ)) (s : State S V)
      → Covers n s
      → Ensures (Covers n) (distribute to payments s)
  unfolding distribute
  distribute-Covers n to [] s h = h
  distribute-Covers n to ((token, amount) ∷ rest) s h =
      Ensures-bind (Covers n) (Covers n) (direct_esdt to token amount s) (distribute to rest)
        (direct_esdt-Covers n to token amount s h) (λ s' h'. distribute-Covers n to rest s' h')

  pub receive_all-Covers : (c : Ctx) (s : State S V) → Covers 0 s → Covers c.egld (receive_all c s)
  receive_all-Covers c s h =
      receive_esdt-Covers c.egld c.esdt (record s { account = receive c s.account }) (ground arith)

  -- Tokens, then the fee that is covered.
  pub release-Covers :
      (to token amount fee : ℕ) (s : State S V)
      → Covers fee s
      → Ensures (Covers 0) (direct_esdt to token amount s >>= pay_fee to fee)
  release-Covers to token amount fee s h =
      Ensures-bind (Covers fee) (Covers 0) (direct_esdt to token amount s) (pay_fee to fee)
        (direct_esdt-Covers fee to token amount s h) (pay_fee-Covers to fee)
