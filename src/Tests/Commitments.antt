-- ===== src/Tests/Commitments.antt =====
-- The theorems on state compression and on the proof verifier at concrete states.
use xcron_protocol.Prelude.{
  ℕ, ◌+◌, ◌%◌, ◌<◌, ◌≡◌, refl, false, some, List, [], ◌∷◌, arith, be_bytes,
}
use xcron_protocol.Framework.{ok, Ctx, Hash}
use xcron_protocol.Common.{Buffer}
use xcron_protocol.Merkle.Proof.{verify_merkle_proof}
use xcron_protocol.Merkle.Agreement.{hash_bound}
use xcron_protocol.XscCore.Contract.{verify_proof}
use xcron_protocol.XscCore.Contract as Xsc
use xcron_protocol.XscCore.Packing.{pack, verify_proof-verify_merkle_proof}
use xcron_protocol.ZkVerifier.Contract as Zk
use xcron_protocol.ZkVerifier.Contract.{
  ProofData, Call, run, submit_proof, is_proof_valid, get_proof,
}
use xcron_protocol.ZkVerifier.Openings.{IsFinal, AllOpened, run-AllOpened}
use xcron_protocol.Tests.Models.{as_caller}

-- A hash that is as small as a test needs.
abbrev short_hash : Buffer → Hash
short_hash [] = 0
short_hash (x ∷ xs) = (x + short_hash xs) % 256

short_hash-lt : (b : Buffer) → short_hash b < hash_bound
short_hash-lt [] = omega arith
short_hash-lt (x ∷ xs) = omega arith

abbrev compressed : Xsc.State
compressed = record {
  merkle_root = be_bytes 32 11;
  authorized_keeper = some 4;
  root_nonce = 1;
  is_paused = false;
}

verify_proof-verify_merkle_proof_example :
    verify_proof short_hash (be_bytes 32 3) (pack (7 ∷ [])) compressed
    ≡ ok (verify_merkle_proof short_hash 3 (7 ∷ []) 11)
verify_proof-verify_merkle_proof_example =
    verify_proof-verify_merkle_proof short_hash short_hash-lt 3 11 (7 ∷ []) compressed
      (omega arith, omega arith, (omega arith, tt)) (omega arith) (refl, refl)

abbrev no_proofs : Zk.State
no_proofs = record { proofs = []; scheduler_addr = some 9; version = 1 }

no_proofs-AllOpened : AllOpened short_hash (be_bytes 4) no_proofs
no_proofs-AllOpened = λ t p f. ground (arith, f)

-- Keeper 4 commits to the value 6 at block 5 for task 1, and opens it with the salt 9.
abbrev history : List (Ctx × Call)
history =
    (as_caller 4, Call.submit 1 20 5 6)
    ∷ (as_caller 4, Call.verify 1 (9 ∷ []))
    ∷ (as_caller 8, Call.submit 1 0 0 0)
    ∷ []

run-AllOpened_example :
    AllOpened short_hash (be_bytes 4) (run short_hash (be_bytes 4) history no_proofs)
    × ((task_id : ℕ) (proof : ProofData)
        → IsFinal short_hash (be_bytes 4) task_id proof no_proofs
        → IsFinal short_hash
            (be_bytes 4)
            task_id
            proof
            (run short_hash (be_bytes 4) history no_proofs))
run-AllOpened_example = run-AllOpened short_hash (be_bytes 4) history no_proofs no_proofs-AllOpened
