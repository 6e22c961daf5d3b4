-- ===== src/ZkVerifier/Contract.antt =====
-- contracts/zk-verifier/src/lib.rs
use xcron_protocol.Prelude.{
  ℕ, ◌+◌, Bool, true, false, not, Option, none, some, List, [], ◌∷◌, ◌++◌, ◌==◌, Dict, lookup,
  insert, be_bytes,
}
use xcron_protocol.Framework.{
  Result, ok, after, ◌>>=◌, ◌>>◌, guard, or_abort, Address, Hash, Ctx, is_zero, u32, scheduler_zero,
  already_verified, no_proof, commitment_mismatch,
}
use xcron_protocol.Common.{Buffer}

pub record ProofData : Type 0 where
  pub commitment : Hash
  pub block_nonce : ℕ
  pub claimed_value : ℕ
  pub prover : Address
  pub submitted_at : ℕ
  pub verified : Bool

pub record State : Type 0 where
  pub proofs : Dict ProofData
  pub scheduler_addr : Option Address
  pub version : ℕ

unfoldable init : Address → State → Result State
init scheduler_addr s = do
  guard (not (is_zero scheduler_addr)) scheduler_zero
  ok (record s { scheduler_addr = some scheduler_addr; version = 1 })

unfoldable pub upgrade : State → State
upgrade s = record s { version = u32 (s.version + 1) }

abbrev pub may_submit : Option ProofData → Bool
may_submit none = true
may_submit (some existing) = not existing.verified

abbrev pub new_proof : Ctx → Hash → ℕ → ℕ → ProofData
new_proof c commitment block_nonce claimed_value = record {
  commitment = commitment;
  block_nonce = block_nonce;
  claimed_value = claimed_value;
  prover = c.caller;
  submitted_at = c.timestamp;
  verified = false;
}

unfoldable pub submit_proof : Ctx → ℕ → Hash → ℕ → ℕ → State → Result State
submit_proof c task_id commitment block_nonce claimed_value s = do
  guard (may_submit (lookup task_id s.proofs)) already_verified
  ok (record s {
    proofs = insert task_id (new_proof c commitment block_nonce claimed_value) s.proofs;
  })

unfoldable pub is_proof_valid : ℕ → State → Bool
is_proof_valid task_id s = elim (lookup task_id s.proofs) [
  | none ↦ false
  | some proof ↦ proof.verified
]

unfoldable pub get_proof : ℕ → State → Result ProofData
get_proof task_id s = or_abort (lookup task_id s.proofs) no_proof

pub data Call : Type 0 where
  submit : (task_id : ℕ) (commitment : Hash) (block_nonce claimed_value : ℕ) → Call
  verify : (task_id : ℕ) (salt : Buffer) → Call
  upgrade_call : Call

-- SHA-256, and the bytes of a big number without leading zeros.
module _ (sha256 : Buffer → Hash) (number_bytes : ℕ → Buffer) where
  -- What the opening of a commitment hashes to.
  abbrev pub opening : ProofData → Buffer → Hash
  opening proof salt =
      sha256 (be_bytes 8 proof.block_nonce ++ number_bytes proof.claimed_value ++ salt)

  unfoldable pub verify_proof : ℕ → Buffer → State → Result State
  verify_proof task_id salt s = do
    proof ← or_abort (lookup task_id s.proofs) no_proof
    guard (not proof.verified) already_verified
    guard (opening proof salt == proof.commitment) commitment_mismatch
    ok (record s { proofs = insert task_id (record proof { verified = true }) s.proofs })

  unfoldable pub dispatch : Ctx → Call → State → Result State
  dispatch c (submit task_id commitment block_nonce claimed_value) s =
      submit_proof c task_id commitment block_nonce claimed_value s
  dispatch c (verify task_id salt) s = verify_proof task_id salt s
  dispatch c upgrade_call s = ok (upgrade s)

  unfoldable pub run : List (Ctx × Call) → State → State
  run [] s = s
  run ((c, call) ∷ calls) s = run calls (after s (dispatch c call s))
