-- ===== src/ZkVerifier/Openings.antt =====
-- Verified proofs are final, and each of them has been opened.
use xcron_protocol.Prelude.{
  ℕ, ◌≡◌, refl, true, not, none, some, inl, inr, Option-cases, Bool-cases, List, [], ◌∷◌, ◌==◌,
  ==_iff, arith, lookup, insert, Dict, lookup-insert, be_bytes, ◌++◌, ==_self,
}
use xcron_protocol.Framework.{
  after, after-Ensures, Ensures-guard, Returns, already_verified, commitment_mismatch, Hash, Ctx,
  Ensures,
}
use xcron_protocol.Common.{Buffer}
use xcron_protocol.ZkVerifier.Contract.{
  State, is_proof_valid, get_proof, may_submit, ProofData, Call, opening, new_proof, submit_proof,
  verify_proof, upgrade, dispatch, run,
}

-- The entry that has just been written is the one that is read.
valid-inserted :
    (t : ℕ) (q : ProofData) (s : State) (d : Dict ProofData)
    → q.verified ≡ true
    → is_proof_valid t (record s { proofs = insert t q d }) ≡ true
unfolding is_proof_valid
valid-inserted t q s d v = ground (arith, v, lookup-insert t t q d)

module _ (sha256 : Buffer → Hash) (number_bytes : ℕ → Buffer) where
  -- The proof of a task, once it is verified, is the given one, and someone has shown a salt for it.
  abbrev pub IsFinal : ℕ → ProofData → State → Type 0
  IsFinal task_id proof s = (lookup task_id s.proofs ≡ some proof) × (proof.verified ≡ true)

  dispatch-IsFinal :
      (c : Ctx) (call : Call) (task_id : ℕ) (proof : ProofData) (s : State)
      → IsFinal task_id proof s
      → Ensures (IsFinal task_id proof) (dispatch sha256 number_bytes c call s)
  unfolding dispatch submit_proof verify_proof upgrade
  dispatch-IsFinal c (Call.submit t h n v) task_id proof s f =
      ground (arith, f, lookup-insert t task_id (new_proof c h n v) s.proofs)
  dispatch-IsFinal c (Call.verify t salt) task_id proof s f =
      elim (Option-cases (lookup t s.proofs)) [
        | inl e ↦ ground (arith, e)
        | inr (p, e) ↦
            ground (arith, e, f, lookup-insert t task_id (record p { verified = true }) s.proofs)
      ]
  dispatch-IsFinal c Call.upgrade_call task_id proof s f = f

  -- A salt with which the commitment of a proof opens.
  abbrev IsOpened : ProofData → Type 0
  IsOpened proof = (salt : Buffer) × (opening sha256 number_bytes proof salt ≡ proof.commitment)

  -- Whatever is valid has been opened.
  abbrev pub AllOpened : State → Type 0
  AllOpened s = (task_id : ℕ) (proof : ProofData) → IsFinal task_id proof s → IsOpened proof

  submit_proof-AllOpened :
      (c : Ctx) (t : ℕ) (h : Hash) (n v : ℕ) (s : State)
      → AllOpened s
      → Ensures AllOpened (submit_proof c t h n v s)
  unfolding submit_proof
  submit_proof-AllOpened c t h n v s a = elim (Bool-cases (may_submit (lookup t s.proofs))) [
    | inl e ↦ rw e (λ task_id proof f.
        a task_id proof (ground (arith, f, lookup-insert t task_id (new_proof c h n v) s.proofs)))
    | inr e ↦ rw e tt
  ]

  -- The proof that has just been verified is opened by the salt.
  verified-AllOpened :
      (t : ℕ) (salt : Buffer) (p : ProofData) (s : State)
      → (opening sha256 number_bytes p salt == p.commitment) ≡ true
      → AllOpened s
      → AllOpened (record s { proofs = insert t (record p { verified = true }) s.proofs })
  verified-AllOpened t salt p s o a = λ task_id proof f. elim (Bool-cases (t == task_id)) [
    | inl e ↦
        let opened : ProofData = record p { verified = true } in
        let q : opened ≡ proof = ground (arith, e, f, lookup-insert t task_id opened s.proofs) in
        (salt, rw (← q) ((==_iff (opening sha256 number_bytes p salt) p.commitment).0 o))
    | inr e ↦
        a task_id proof
          (ground (arith, e, f, lookup-insert t task_id (record p { verified = true }) s.proofs))
  ]

  verify_proof-AllOpened :
      (t : ℕ) (salt : Buffer) (s : State)
      → AllOpened s
      → Ensures AllOpened (verify_proof sha256 number_bytes t salt s)
  unfolding verify_proof
  verify_proof-AllOpened t salt s a = elim (Option-cases (lookup t s.proofs)) [
    | inl e ↦ rw e tt
    | inr (p, e) ↦ rw e (
        Ensures-guard AllOpened (not p.verified) already_verified _ (λ fresh.
          Ensures-guard AllOpened (opening sha256 number_bytes p salt == p.commitment)
            commitment_mismatch _ (λ o. verified-AllOpened t salt p s o a)))
  ]

  dispatch-AllOpened :
      (c : Ctx) (call : Call) (s : State)
      → AllOpened s
      → Ensures AllOpened (dispatch sha256 number_bytes c call s)
  unfolding dispatch upgrade
  dispatch-AllOpened c (Call.submit t h n v) s a = submit_proof-AllOpened c t h n v s a
  dispatch-AllOpened c (Call.verify t salt) s a = verify_proof-AllOpened t salt s a
  dispatch-AllOpened c Call.upgrade_call s a = a

  -- In every state that is reached from one where this holds, such as the empty one, each proof that
  -- counts as valid has been opened: there is a salt with which its block nonce and claimed value hash
  -- to its commitment. And a valid proof is never replaced or changed by any later transaction.
  pub run-AllOpened :
      (calls : List (Ctx × Call)) (s : State)
      → AllOpened s
      → AllOpened (run sha256 number_bytes calls s)
        × ((task_id : ℕ) (proof : ProofData)
            → IsFinal task_id proof s
            → IsFinal task_id proof (run sha256 number_bytes calls s))
  unfolding run
  run-AllOpened [] s a = (a, λ task_id proof f. f)
  run-AllOpened ((c, call) ∷ calls) s a =
      let r = dispatch sha256 number_bytes c call s in
      let rest =
        run-AllOpened calls (after s r)
          (after-Ensures AllOpened s r a (dispatch-AllOpened c call s a)) in
      (
        rest.0,
        λ task_id proof f. rest.1 task_id proof (
            after-Ensures (IsFinal task_id proof) s r f
              (dispatch-IsFinal c call task_id proof s f)),
      )

  -- Anyone can make the proof of a task valid for a value of one's own choice: whoever submits picks
  -- the block nonce, the value and the salt, and no block hash enters the commitment.
  pub any_value_verifies :
      (c : Ctx) (t n v : ℕ) (salt : Buffer) (s : State)
      → lookup t s.proofs ≡ none
      → Returns
          (λ s1.
            Returns
              (λ s2.
                (is_proof_valid t s2 ≡ true)
                × Returns (λ p. (p.claimed_value ≡ v) × (p.block_nonce ≡ n)) (get_proof t s2))
              (verify_proof sha256 number_bytes t salt s1))
          (submit_proof c t (sha256 (be_bytes 8 n ++ number_bytes v ++ salt)) n v s)
  unfolding submit_proof verify_proof is_proof_valid get_proof
  any_value_verifies c t n v salt s e =
      let h = sha256 (be_bytes 8 n ++ number_bytes v ++ salt) in
      let p = new_proof c h n v in
      let q : ProofData = record p { verified = true } in
      rw
        (
          e,
          lookup-insert t t p s.proofs,
          ==_self t,
          ==_self h,
          lookup-insert t t q (insert t p s.proofs),
          ==_self t,
        )
        (valid-inserted t q s (insert t p s.proofs) refl, (refl, refl))
