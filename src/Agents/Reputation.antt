-- ===== src/Agents/Reputation.antt =====
-- contracts/xcron-agent-shield/reputation-registry/src: storage.rs, utils.rs and lib.rs. A signed 64-bit
-- value of feedback is its bits as a number.
use xcron_protocol.Prelude.{
  ℕ, ◌+◌, ◌*◌, ◌/◌, ◌≡◌, ◌<◌, refl, Bool, true, false, not, ◌&&◌, ◌||◌, Option, some, leb, ltb,
  ◌==◌, ==_self, lt→ltb, ap, ◌∙◌, if◌then◌else◌, Dict, lookup, insert, read, read_or, read-insert,
  arith,
}
use xcron_protocol.Framework.{
  Result, ok, ◌>>=◌, ◌>>◌, guard, require_owner, or_abort, Address, Ctx, SetMapper, insert_item,
  sub_big, u64, Returns, job_not_found, not_employer, feedback_already, self_review,
  invalid_decimals, feedback_not_found, already_revoked, invalid_apr,
}
use xcron_protocol.Common.{Buffer}
use xcron_protocol.Agents.Types.{JobData, BiDiMapper, get_id}
use xcron_protocol.Agents.Identity as Identity
use xcron_protocol.Agents.Validation as Validation

pub record FeedbackData : Type 0 where
  pub value : ℕ
  pub value_decimals : ℕ
  pub tag1 : Buffer
  pub tag2 : Buffer
  pub is_revoked : Bool

pub record State (S : Type 0) : Type 0 where
  pub reputation_score : Dict ℕ
  pub total_jobs : Dict ℕ
  pub validation_contract_address : Option Address
  pub identity_contract_address : Option Address
  pub has_given_feedback : Dict Bool
  pub agent_response : Dict Buffer
  pub feedback_data : ℕ → Address → ℕ → Option FeedbackData
  pub last_feedback_index : ℕ → Address → ℕ
  pub feedback_clients : ℕ → S

-- The score that counts: 80 while there is none.
abbrev adjusted_score : ℕ → ℕ
adjusted_score rep_score = if rep_score == 0 then 80 else rep_score

abbrev pub base_value : ℕ → ℕ → ℕ
base_value net_monthly_earnings apr = net_monthly_earnings * 12 * 10000 / apr

module _ {S : Type 0} where
  unfoldable init : Address → Address → State S → State S
  init validation identity s = record s {
    validation_contract_address = some validation;
    identity_contract_address = some identity;
  }

  unfoldable upgrade : State S → State S
  upgrade s = s

  unfoldable set_identity_contract_address : Ctx → Address → State S → Result (State S)
  set_identity_contract_address c addr s = do
    require_owner c
    ok (record s { identity_contract_address = some addr })

  unfoldable set_validation_contract_address : Ctx → Address → State S → Result (State S)
  set_validation_contract_address c addr s = do
    require_owner c
    ok (record s { validation_contract_address = some addr })

  -- The new score and the new number of jobs.
  unfoldable calculate_new_score : ℕ → ℕ → State S → Result (ℕ × ℕ)
  calculate_new_score agent_nonce rating s = do
    let total = u64 (read agent_nonce s.total_jobs + 1)
    prev_total ← sub_big total 1
    ok ((read agent_nonce s.reputation_score * prev_total + rating) / total, total)

  -- One item of the feedback, replaced.
  abbrev set_feedback : ℕ → Address → ℕ → FeedbackData → State S → State S
  set_feedback agent client index fb s = record s {
    feedback_data =
        λ a k i. if a == agent && k == client && i == index then some fb else s.feedback_data a k i;
  }

  unfoldable revoke_feedback : Ctx → ℕ → ℕ → State S → Result (State S)
  revoke_feedback c agent_nonce feedback_index s = do
    fb ← or_abort (s.feedback_data agent_nonce c.caller feedback_index) feedback_not_found
    guard (not fb.is_revoked) already_revoked
    ok (set_feedback agent_nonce c.caller feedback_index (record fb { is_revoked = true }) s)

  unfoldable read_feedback : ℕ → Address → ℕ → State S → Result FeedbackData
  read_feedback agent_nonce client feedback_index s =
      or_abort (s.feedback_data agent_nonce client feedback_index) feedback_not_found

  unfoldable pub evaluate_agent_fair_value : ℕ → ℕ → ℕ → State S → Result ℕ
  evaluate_agent_fair_value agent_nonce net_monthly_earnings apr s = do
    guard (ltb 0 apr) invalid_apr
    ok (
        base_value net_monthly_earnings apr
        * adjusted_score (read agent_nonce s.reputation_score)
        / 100)

module _ {S : Type 0} (jobs : Validation.State S) where
  unfoldable pub give_feedback_simple : Ctx → ℕ → ℕ → ℕ → State S → Result (State S)
  unfolding calculate_new_score
  give_feedback_simple c job_id agent_nonce rating s = do
    job ← or_abort (lookup job_id jobs.job_data) job_not_found
    guard (c.caller == job.employer) not_employer
    guard (not (read_or false job_id s.has_given_feedback)) feedback_already
    scored ← calculate_new_score agent_nonce rating s
    ok (record s {
      total_jobs = insert agent_nonce scored.1 s.total_jobs;
      reputation_score = insert agent_nonce scored.0 s.reputation_score;
      has_given_feedback = insert job_id true s.has_given_feedback;
    })

  unfoldable append_response : ℕ → Buffer → State S → Result (State S)
  append_response job_id response_uri s = do
    job ← or_abort (lookup job_id jobs.job_data) job_not_found
    ok (record s { agent_response = insert job_id response_uri s.agent_response })

module _ {S B : Type 0} ⦃sets : SetMapper S⦄ ⦃bidi : BiDiMapper B⦄ (ids : Identity.State B) where
  unfoldable give_feedback : Ctx → ℕ → ℕ → ℕ → Buffer → Buffer → State S → Result (State S)
  give_feedback c agent_nonce value value_decimals tag1 tag2 s = do
    let owner_nonce = get_id c.caller ids.agents
    guard (owner_nonce == 0 || not (owner_nonce == agent_nonce)) self_review
    guard (leb value_decimals 18) invalid_decimals
    let new_index = u64 (s.last_feedback_index agent_nonce c.caller + 1)
    let fb : FeedbackData = record {
      value = value;
      value_decimals = value_decimals;
      tag1 = tag1;
      tag2 = tag2;
      is_revoked = false;
    }
    ok (
        set_feedback agent_nonce c.caller new_index fb (record s {
          last_feedback_index = λ a k.
              if a == agent_nonce && k == c.caller then new_index else s.last_feedback_index a k;
          feedback_clients = λ a.
              if a == agent_nonce
              then insert_item c.caller (s.feedback_clients a)
              else s.feedback_clients a;
        }))

module _ {S : Type 0} where
  calculate_new_score-first :
      (agent rating : ℕ) (s : State S)
      → (read agent s.total_jobs ≡ 0) × (read agent s.reputation_score ≡ 0)
      → calculate_new_score agent rating s ≡ ok (rating, 1)
  unfolding calculate_new_score
  calculate_new_score-first agent rating s h =
      let e : (0 * 0 + rating) / 1 ≡ rating = omega arith in rw (h.0, h.1, e) refl

  evaluate-score :
      (agent earnings apr score : ℕ) (s : State S)
      → read agent s.reputation_score ≡ score
      → 0 < apr
      → evaluate_agent_fair_value agent earnings apr s
        ≡ ok (base_value earnings apr * adjusted_score score / 100)
  unfolding evaluate_agent_fair_value
  evaluate-score agent earnings apr score s e h = rw (e, lt→ltb 0 apr h) refl

  -- The employer of any job sets the score of any agent that has none, to any number: the agent of the
  -- job, its status and the range of the rating are not tested. The fair value, at which the agent is
  -- sold, moves from 80% of the base value to as many percent as the rating.
  pub give_feedback_simple_any_agent :
      (c : Ctx) (jobs : Validation.State S) (job : JobData)
      (job_id agent_nonce rating earnings apr : ℕ) (s : State S)
      → (lookup job_id jobs.job_data ≡ some job) × (c.caller ≡ job.employer)
      → read_or false job_id s.has_given_feedback ≡ false
      → (read agent_nonce s.total_jobs ≡ 0) × (read agent_nonce s.reputation_score ≡ 0)
      → (0 < rating) × (0 < apr)
      → (evaluate_agent_fair_value agent_nonce earnings apr s
          ≡ ok (base_value earnings apr * 80 / 100))
        × Returns
            (λ s'.
              evaluate_agent_fair_value agent_nonce earnings apr s'
              ≡ ok (base_value earnings apr * rating / 100))
            (give_feedback_simple jobs c job_id agent_nonce rating s)
  unfolding give_feedback_simple
  give_feedback_simple_any_agent c jobs job job_id agent rating earnings apr s mine first none_yet
        pos =
      let d : Dict ℕ = insert agent rating s.reputation_score in
      let s' : State S = record s {
        total_jobs = insert agent 1 s.total_jobs;
        reputation_score = d;
        has_given_feedback = insert job_id true s.has_given_feedback;
      } in
      let r : read agent d ≡ rating =
        ground (arith, read-insert agent agent rating s.reputation_score) in
      let a : adjusted_score rating ≡ rating = ground (arith, pos) in
      (
        evaluate-score agent earnings apr 0 s none_yet.1 pos.1,
        rw
            (
              mine.0,
              mine.1,
              ==_self job.employer,
              first,
              calculate_new_score-first agent rating s none_yet,
            )
            (evaluate-score agent earnings apr rating s' r pos.1
              ∙ ap (λ n. ok (base_value earnings apr * n / 100)) a),
      )
