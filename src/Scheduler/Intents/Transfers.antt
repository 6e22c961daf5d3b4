-- ===== src/Scheduler/Intents/Transfers.antt =====
-- Token payments and the checks that the three kinds of intent share.
use xcron_protocol.Prelude.{
  ℕ, ◌+◌, ◌-◌, Bool, true, false, List, [], ◌∷◌, leb, ltb, if◌then◌else◌, insert, read,
}
use xcron_protocol.Framework.{
  Result, ok, err, ◌>>=◌, ◌>>◌, guard, Address, TokenId, Ctx, receive, emit, send_esdt,
  insufficient_funds, not_one_esdt, deadline_in_ms, deadline_passed,
}
use xcron_protocol.Common.{IntentStatus, PreCognitiveIntentStatus}
use xcron_protocol.Scheduler.State.{State, pay}

abbrev pub intent_pending : IntentStatus → Bool
intent_pending IntentStatus.pending = true
intent_pending _ = false

abbrev pub leaf_pending : PreCognitiveIntentStatus → Bool
leaf_pending PreCognitiveIntentStatus.pending = true
leaf_pending _ = false

-- Exactly one token transfer, as `single_fungible_esdt` and the test of the length ask.
abbrev pub single_esdt : List (TokenId × ℕ) → Result (TokenId × ℕ)
single_esdt [] = err not_one_esdt
single_esdt (p ∷ []) = ok p
single_esdt (p ∷ q ∷ r) = err not_one_esdt

-- The deadline is in seconds, and in the future.
abbrev pub require_deadline : Ctx → ℕ → Result (Unit {0})
require_deadline c deadline = do
  guard (ltb deadline 10000000000) deadline_in_ms
  guard (ltb c.timestamp deadline) deadline_passed

module _ {S V : Type 0} where
  -- What a payable endpoint has received when its body begins.
  unfoldable pub receive_esdt : List (TokenId × ℕ) → State S V → State S V
  receive_esdt [] s = s
  receive_esdt ((token, amount) ∷ rest) s =
      receive_esdt rest (record s { tokens = insert token (read token s.tokens + amount) s.tokens })

  abbrev pub receive_all : Ctx → State S V → State S V
  receive_all c s = receive_esdt c.esdt (record s { account = receive c s.account })

  -- `self.send().direct_esdt(to, token, 0, amount)`
  unfoldable pub direct_esdt : Address → TokenId → ℕ → State S V → Result (State S V)
  direct_esdt to token amount s =
      if leb amount (read token s.tokens)
      then ok (record s {
        tokens = insert token (read token s.tokens - amount) s.tokens;
        account = emit (send_esdt to token amount) s.account;
      })
      else err insufficient_funds

  -- `if fee > 0 { direct_egld(to, fee) }`
  abbrev pub pay_fee : Address → ℕ → State S V → Result (State S V)
  pay_fee to fee s = if ltb 0 fee then pay to fee s else ok s

  -- The payments of a solver go to the owner, one by one.
  unfoldable pub distribute : Address → List (TokenId × ℕ) → State S V → Result (State S V)
  unfolding direct_esdt
  distribute to [] s = ok s
  distribute to ((token, amount) ∷ rest) s = direct_esdt to token amount s >>= distribute to rest
