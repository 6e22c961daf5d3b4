-- ===== src/Agents/Requests.antt =====
-- Requests of contracts/xcron-agent-shield/validation-registry that share a hash.
use xcron_protocol.Prelude.{
  ℕ, ◌≡◌, ◌≢◌, some, [], arith, lookup, lookup-insert, Option-cases, inl, inr,
}
use xcron_protocol.Framework.{err, Address, Ctx, SetMapper, Ensures, not_validator}
use xcron_protocol.Common.{Buffer}
use xcron_protocol.Agents.Types.{validation_requested, ValidationRequestData, BiDiMapper}
use xcron_protocol.Agents.Identity as Identity
use xcron_protocol.Agents.Validation.{State, validation_request, validation_response}

module _ {S B : Type 0} ⦃sets : SetMapper S⦄ ⦃bidi : BiDiMapper B⦄ where
  -- The code does not look whether a request's hash is taken. The owner of any agent who reuses the hash
  -- of a request for another agent's job, with another validator, takes that request away: its
  -- validator is refused from then on, and the job is left waiting as it was.
  pub reused_hash_hijacks :
      (ids : Identity.State B) (c c' : Ctx) (job_id : ℕ) (validator : Address) (hash : ℕ)
      (response : ℕ) (response_hash tag : Buffer) (old : ValidationRequestData) (s : State S)
      → lookup hash s.validation_request_data ≡ some old
      → (old.job_id ≢ job_id) × (old.validator_address ≢ validator)
      → c'.caller ≡ old.validator_address
      → Ensures
          (λ s'.
            (validation_response c' hash response response_hash tag s' ≡ err not_validator)
            × (lookup old.job_id s'.job_data ≡ lookup old.job_id s.job_data))
          (validation_request ids c job_id validator hash s)
  unfolding validation_request validation_response
  reused_hash_hijacks ids c c' job_id validator hash response response_hash tag old s e differ v =
      elim (Option-cases (lookup job_id s.job_data)) [
        | inl n ↦ ground (arith, n)
        | inr (job, n) ↦
            (let request : ValidationRequestData = record {
              validator_address = validator;
              agent_nonce = job.agent_nonce;
              job_id = job_id;
              response = 0;
              response_hash = [];
              tag = [];
              last_update = 0;
            } in
              ground (
                arith,
                n,
                differ,
                v,
                lookup-insert hash hash request s.validation_request_data,
                lookup-insert job_id old.job_id (record job { status = validation_requested })
                    s.job_data,
              ))
      ]
