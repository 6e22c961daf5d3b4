-- ===== src/Tests/Trades.antt =====
-- The theorems on intents at concrete states.
use xcron_protocol.Prelude.{ℕ, ◌≡◌, refl, false, some, List, [], ◌∷◌, ◌++◌, arith, lookup}
use xcron_protocol.Framework.{Hash, Ctx, after, Returns, is_ok, send_esdt, direct_egld}
use xcron_protocol.Common.{PreCognitiveIntent}
use xcron_protocol.Merkle.Proof.{verify_merkle_proof, fold_proof}
use xcron_protocol.Scheduler.Environment.{Env}
use xcron_protocol.Scheduler.Funds.Books.{Covers}
use xcron_protocol.Scheduler.Intents.{
  cancel_pre_cognitive_intent, execute_pre_cognitive_leaf, receive_esdt, direct_esdt, Leaf,
  leaf_hash,
}
use xcron_protocol.Scheduler.Lifecycle.Trading.{
  fee_message, Executes, execute_pre_cognitive_leaf-Executes, cancel_pre_cognitive_intent_refunds,
}
use xcron_protocol.Tests.Models.{bit_set, env, as_caller}
use xcron_protocol.Tests.Schedule.{Scheduler, trading, swap, committed}

trading-Covers : Covers 0 trading
trading-Covers = ground arith

-- Keeper 3 pays 60 of token 21.
abbrev offer : Ctx
offer = record (as_caller 3) { esdt = (21, 60) ∷ [] }

abbrev traded : Scheduler
traded = after trading (execute_pre_cognitive_leaf env offer 1 [] swap trading)

execute_pre_cognitive_leaf-Executes_example :
    (i : PreCognitiveIntent) × (paid : ℕ) × (lookup 1 trading.pre_cognitive_intent_by_id ≡ some i)
    × Executes env offer 1 [] swap i paid trading traded
unfolding execute_pre_cognitive_leaf leaf_hash verify_merkle_proof fold_proof receive_esdt
    direct_esdt direct_egld bit_set
execute_pre_cognitive_leaf-Executes_example =
    execute_pre_cognitive_leaf-Executes env offer 1 [] swap trading traded refl

cancel_pre_cognitive_intent_refunds_example :
    Returns
      (λ s'.
        (s'.account.outbox ≡ fee_message 4 10 ++ (send_esdt 4 20 70 ∷ []))
        × ((env : Env) (c : Ctx) (proof : List Hash) (leaf : Leaf)
            → (is_ok (cancel_pre_cognitive_intent c 1 s') ≡ false)
              × (is_ok (execute_pre_cognitive_leaf env c 1 proof leaf s') ≡ false)))
      (cancel_pre_cognitive_intent (as_caller 4) 1 trading)
cancel_pre_cognitive_intent_refunds_example =
    cancel_pre_cognitive_intent_refunds (as_caller 4) 1 committed trading trading-Covers refl refl
      refl refl (omega arith)
