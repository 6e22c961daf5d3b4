-- ===== src/Agents/Validation.antt =====
-- contracts/xcron-agent-shield/validation-registry/src: storage.rs, config.rs and lib.rs. The storage
-- of the identity registry, which the contract reads, is `ids`; `now_ms` is the block's time in
-- milliseconds.
use xcron_protocol.Prelude.{
  ℕ, ◌+◌, Bool, true, false, Option, none, some, List, [], ◌∷◌, leb, ltb, ◌==◌, is_none,
  if◌then◌else◌, Dict, lookup, insert, erase, read_or, bytes_eq, be_bytes,
}
use xcron_protocol.Framework.{
  Result, ok, ◌>>=◌, ◌>>◌, guard, or_abort, Address, Ctx, Account, SetMapper, contains, insert_item,
  swap_remove, require_owner, emit, send_esdt, decode_error, u64, already_registered,
  payment_mismatch, insufficient_agent_payment, job_not_found, not_agent_owner, job_status_invalid,
  invalid_nft, unauthorized_validator, request_not_found, not_validator,
}
use xcron_protocol.Common.{Buffer}
use xcron_protocol.Agents.Types.{
  JobStatus, new, pending, verified, validation_requested, rejected, JobData, ValidationRequestData,
  Payment, BiDiMapper, get_value,
}
use xcron_protocol.Agents.Identity as Identity

pub record State (S : Type 0) : Type 0 where
  pub job_data : Dict JobData
  pub identity_registry_address : Option Address
  pub validation_request_data : Dict ValidationRequestData
  pub agent_validations : ℕ → S
  pub whitelisted_validators : S
  pub account : Account

module _ {S : Type 0} where
  unfoldable init : Address → State S → State S
  init identity_registry s = record s { identity_registry_address = some identity_registry }

  unfoldable upgrade : State S → State S
  upgrade s = s

  unfoldable set_identity_registry_address : Ctx → Address → State S → Result (State S)
  set_identity_registry_address c addr s = do
    require_owner c
    ok (record s { identity_registry_address = some addr })

  -- The payment for a service goes to the owner of the agent; a free service takes none.
  unfoldable forward_payment : Address → Payment → Option Payment → State S → Result (State S)
  forward_payment owner price none s = do guard (price.amount == 0) insufficient_agent_payment; ok s
  forward_payment owner price (some pay) s = do
    guard (pay.token_identifier == price.token_identifier) payment_mismatch
    guard (pay.token_nonce == price.token_nonce) payment_mismatch
    guard (leb price.amount pay.amount) insufficient_agent_payment
    ok (record s { account = emit (send_esdt owner pay.token_identifier pay.amount) s.account })

  -- The service that is asked for, if the agent offers it.
  unfoldable pay_service : Address → Option Payment → Option Payment → State S → Result (State S)
  unfolding forward_payment
  pay_service owner none pay s = ok s
  pay_service owner (some price) pay s = forward_payment owner price pay s

-- A job that awaits a proof.
abbrev is_open : JobStatus → Bool
is_open new = true
is_open pending = true
is_open _ = false

abbrev three_days_ms : ℕ
three_days_ms = 259200000

-- The loop of `clean_old_jobs`.
unfoldable clean_jobs : ℕ → List ℕ → Dict JobData → Dict JobData
clean_jobs now_ms [] jobs = jobs
clean_jobs now_ms (job_id ∷ job_ids) jobs =
    let kept = clean_jobs now_ms job_ids jobs in
    let cleaned = clean_jobs now_ms job_ids (erase job_id jobs) in
    elim (lookup job_id jobs) [
      | none ↦ kept
      | some job ↦
          if ltb (u64 (job.creation_timestamp + three_days_ms)) now_ms then cleaned else kept
    ]

module _ {S : Type 0} ⦃sets : SetMapper S⦄ where
  unfoldable add_whitelisted_validator : Ctx → Address → State S → Result (State S)
  add_whitelisted_validator c addr s = do
    require_owner c
    ok (record s { whitelisted_validators = insert_item addr s.whitelisted_validators })

  unfoldable remove_whitelisted_validator : Ctx → Address → State S → Result (State S)
  remove_whitelisted_validator c addr s = do
    require_owner c
    ok (record s { whitelisted_validators = swap_remove addr s.whitelisted_validators })

-- The agent itself, known by its public key, or its owner.
unfoldable require_agent :
    {B : Type 0} ⦃bidi : BiDiMapper B⦄ → Identity.State B → Ctx → ℕ → Result (Unit {0})
require_agent ids c agent_nonce =
    or_abort (lookup agent_nonce ids.agent_details) decode_error >>= (λ details.
      if bytes_eq (be_bytes 32 c.caller) details.public_key
      then ok tt
      else (or_abort (get_value agent_nonce ids.agents) decode_error
          >>= (λ owner. guard (c.caller == owner) not_agent_owner)))

module _ {S B : Type 0} ⦃bidi : BiDiMapper B⦄ (ids : Identity.State B) where
  unfoldable init_job : Ctx → ℕ → ℕ → ℕ → Option ℕ → Option Payment → State S → Result (State S)
  unfolding pay_service
  init_job c now_ms job_id agent_nonce service_id pay s = do
    guard (is_none (lookup job_id s.job_data)) already_registered
    let job : JobData = record {
      status = new;
      proof = [];
      employer = c.caller;
      creation_timestamp = now_ms;
      agent_nonce = agent_nonce;
    }
    let s1 : State S = record s { job_data = insert job_id job s.job_data }
    elim service_id [
      | none ↦ ok s1
      | some sid ↦ (do
        owner ← or_abort (get_value agent_nonce ids.agents) decode_error
        pay_service owner (lookup sid (read_or [] agent_nonce ids.agent_service_config)) pay s1)
    ]

  unfoldable submit_proof : Ctx → ℕ → Buffer → State S → Result (State S)
  unfolding require_agent
  submit_proof c job_id proof s = do
    job ← or_abort (lookup job_id s.job_data) job_not_found
    require_agent ids c job.agent_nonce
    guard (is_open job.status) job_status_invalid
    ok (record s {
      job_data = insert job_id (record job { proof = proof; status = pending }) s.job_data;
    })

  -- The NFT that is sent in goes back to the caller.
  unfoldable submit_proof_with_nft : Ctx → ℕ → Buffer → Payment → State S → Result (State S)
  submit_proof_with_nft c job_id proof payment s = do
    job ← or_abort (lookup job_id s.job_data) job_not_found
    guard (is_open job.status) job_status_invalid
    token ← or_abort ids.agent_token_id decode_error
    guard (payment.token_identifier == token) invalid_nft
    guard (payment.token_nonce == job.agent_nonce) invalid_nft
    ok (record s {
      job_data = insert job_id (record job { proof = proof; status = pending }) s.job_data;
      account = emit (send_esdt c.caller payment.token_identifier payment.amount) s.account;
    })

  module _ ⦃sets : SetMapper S⦄ where
    unfoldable pub validation_request : Ctx → ℕ → Address → ℕ → State S → Result (State S)
    validation_request c job_id validator request_hash s = do
      job ← or_abort (lookup job_id s.job_data) job_not_found
      owner ← or_abort (get_value job.agent_nonce ids.agents) decode_error
      guard (c.caller == owner) not_agent_owner
      guard (contains validator s.whitelisted_validators) unauthorized_validator
      let request : ValidationRequestData = record {
        validator_address = validator;
        agent_nonce = job.agent_nonce;
        job_id = job_id;
        response = 0;
        response_hash = [];
        tag = [];
        last_update = 0;
      }
      ok (record s {
        validation_request_data = insert request_hash request s.validation_request_data;
        agent_validations = λ n.
            if n == job.agent_nonce
            then insert_item request_hash (s.agent_validations n)
            else s.agent_validations n;
        job_data = insert job_id (record job { status = validation_requested }) s.job_data;
      })

-- The outcome of a response for the job, if it is still there.
unfoldable pub settle_job : ℕ → ℕ → Dict JobData → Dict JobData
settle_job job_id response jobs = elim (lookup job_id jobs) [
  | none ↦ jobs
  | some job ↦
      insert job_id (record job { status = if leb 70 response then verified else rejected }) jobs
]

module _ {S : Type 0} where
  unfoldable pub validation_response : Ctx → ℕ → ℕ → Buffer → Buffer → State S → Result (State S)
  unfolding settle_job
  validation_response c request_hash response response_hash tag s = do
    request ← or_abort (lookup request_hash s.validation_request_data) request_not_found
    guard (c.caller == request.validator_address) not_validator
    let updated : ValidationRequestData = record request {
      response = response;
      response_hash = response_hash;
      tag = tag;
      last_update = c.timestamp;
    }
    ok (record s {
      validation_request_data = insert request_hash updated s.validation_request_data;
      job_data = settle_job request.job_id response s.job_data;
    })

  unfoldable clean_old_jobs : ℕ → List ℕ → State S → State S
  unfolding clean_jobs
  clean_old_jobs now_ms job_ids s = record s { job_data = clean_jobs now_ms job_ids s.job_data }
