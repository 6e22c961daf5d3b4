-- ===== src/Compose/Links.antt =====
-- The synchronous queries of contracts/scheduler/src, answered by the contracts that it is set up with:
-- `verifyProof` by contracts/xsc-core and `isSafeToExecute` by contracts/xwap.
use xcron_protocol.Prelude.{◌<◌, ◌≡◌, Bool, true, false, List, [], ◌∷◌, be_bytes}
use xcron_protocol.Framework.{ok, ◌>>=◌, Ctx, SetMapper, SetItems}
use xcron_protocol.Common.{Buffer}
use xcron_protocol.Scheduler.Environment.{Env, first_bool}
use xcron_protocol.Merkle.Agreement.{hash_bound}
use xcron_protocol.XscCore.Contract as Xsc
use xcron_protocol.Xwap.State as Xwap
use xcron_protocol.Xwap.Oracle.{is_safe_to_execute}

-- A Boolean result: true is the byte 1, and false the empty buffer.
abbrev pub encode_bool : Bool → List Buffer
encode_bool true = (1 ∷ []) ∷ []
encode_bool false = [] ∷ []

-- What the framework documents: it reads Booleans as it writes them, and a hash has 32 bytes.
pub record IsFramework (env : Env) : Type 0 where
  pub decodes : (b : Bool) → first_bool env (encode_bool b) ≡ b
  pub bounded : (b : Buffer) → env.sha256 b < hash_bound

module _ {S : Type 0} ⦃sets : SetMapper S⦄ ⦃its : SetItems S⦄ where
  -- The oracle is asked in the block of the Scheduler's call, `c`.
  abbrev pub linked : Env → Xsc.State → Ctx → Xwap.State S → Env
  linked env x c w = record env {
    verify_proof = λ address hash proof.
        Xsc.verify_proof env.sha256 (be_bytes 32 hash) proof x >>= (λ b. ok (encode_bool b));
    is_safe_to_execute = λ address. ok (encode_bool (is_safe_to_execute c w));
  }
