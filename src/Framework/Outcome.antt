-- ===== src/Framework/Outcome.antt =====
-- The outcome of an endpoint. An error aborts the transaction, so it carries no state: the chain
-- restores what was stored before the call. One constructor for each message of `require!`.
use xcron_protocol.Prelude.{◌≡◌, refl, ◌⊎◌, inl, inr, Bool, true, false, Option, none, some}

pub data Error : Type 0 where
  -- raised by the framework
  decode_error underflow insufficient_funds not_payable only_owner index_out_of_range : Error
  -- common
  contract_paused not_authorized : Error
  -- keeper-registry
  slash_pct_exceeds_100 treasury_zero keeper_already_registered stake_below_min : Error
  keeper_not_registered keeper_not_active must_unstake_first cooldown_not_elapsed : Error
  slash_exceeds_100 provider_not_set insufficient_liquidity claim_lost_funds no_debt : Error
  -- rewards
  split_exceeds_100 no_pending_rewards insufficient_treasury : Error
  -- scheduler
  protocol_fee_exceeds_100 fee_exceeds_100 keeper_list_too_large no_fees_to_flush : Error
  must_deposit_spend_limit spend_limit_exceeds_max ttl_too_short ttl_too_long : Error
  cannot_authorize_self clone_key_already_authorized too_many_clone_keys : Error
  clone_key_not_found not_clone_key_owner must_send_egld clone_key_expired : Error
  new_limit_exceeds_max clone_key_limit_exceeded clone_key_attached_egld : Error
  missing_requested_deposit deposit_below_min deposit_exceeds_cap : Error
  max_gas_too_high max_gas_too_low ttl_exceeds_5_years created_at_malformed : Error
  target_time_too_large start_time_too_large task_hash_exists sovereign_task_exists : Error
  too_many_active_tasks too_many_tasks_this_round task_not_found not_task_owner : Error
  only_pending_cancellable target_self target_registry target_rewards : Error
  target_blacklisted dangerous_endpoint task_expired task_not_ripe : Error
  oracle_condition_not_met invalid_quantum_seal task_not_pending : Error
  missing_quantum_secret quantum_seal_broken locked_task wrong_round_robin_keeper : Error
  already_executed xsc_not_configured invalid_state_proof unauthorized_settler : Error
  not_in_execution_state invalid_zk_proof insufficient_gas market_unsafe : Error
  not_executing not_stuck_yet only_owner_can_rescue : Error
  -- intents
  egld_ne_fee not_one_esdt zero_amount_in token_not_whitelisted deadline_in_ms : Error
  deadline_passed only_owner_can_cancel intent_not_pending intent_expired wrong_token : Error
  slippage outcomes_empty too_many_outcomes duplicate_outcomes wrong_payment_count : Error
  invalid_merkle_proof : Error
  -- vault
  zero_deposit zero_withdraw insufficient_balance no_pending_withdrawals : Error
  unbonded_not_available no_swap_config slippage_not_set no_mint_config : Error
  unsafe_mint exceeds_safe_liquid slippage_above_50 : Error
  -- xwap
  not_oracle_owner threshold_out_of_range min_not_below_max alpha_above_1 boost_too_high : Error
  freshness_out_of_range consensus_out_of_range not_registered_keeper zero_price : Error
  zero_reserve_a zero_reserve_b ewma_zero division_by_zero : Error
  -- zk-verifier
  scheduler_zero already_verified no_proof commitment_mismatch : Error
  -- xsc-core
  protocol_paused unauthorized_keeper invalid_root_length invalid_leaf_length : Error
  invalid_proof_length proof_too_deep : Error
  -- agent shield
  shield_paused invalid_token only_agent raw_transfer_prohibited token_not_authorized : Error
  threshold_exceeded target_is_shield only_shield_owner insufficient_agent_payment : Error
  -- marketplace and registries
  token_not_issued already_registered invalid_nft not_agent_owner job_not_found : Error
  not_employer feedback_already self_review invalid_decimals feedback_not_found : Error
  already_revoked job_status_invalid unauthorized_validator request_not_found : Error
  not_validator invalid_apr not_listed not_seller payment_mismatch not_one_nft : Error
  -- hft-vault
  hft_paused not_bot vault_liquidity no_balance pool_empty no_mid_token zero_mid : Error
  not_profitable below_min_profit : Error

pub data Result {ℓ} (A : Type ℓ) : Type ℓ where
  err : Error → Result A
  ok : A → Result A

infixl 5 ◌>>=◌ ◌>>◌
-- What follows a call that has not aborted; an abort ends the transaction.
abbrev pub ◌>>=◌ {ℓ κ} : {A : Type ℓ} {B : Type κ} → Result A → (A → Result B) → Result B
err reason >>= next = err reason
ok result >>= next = next result

-- Reading an empty slot as a value of fixed size, such as an address or a struct, aborts.
abbrev pub or_abort {ℓ} : {A : Type ℓ} → Option A → Error → Result A
or_abort none reason = err reason
or_abort (some value) reason = ok value

-- `require!`
abbrev pub guard : Bool → Error → Result (Unit {0})
guard false reason = err reason
guard true reason = ok tt

abbrev pub ◌>>◌ {ℓ} : {B : Type ℓ} → Result (Unit {0}) → Result B → Result B
check >> rest = check >>= λ _. rest

-- `abbrev`s that let statements speak of the state after a call that succeeds.
abbrev pub Ensures {ℓ κ} : {A : Type ℓ} → (A → Type κ) → Result A → Type κ
Ensures P (err e) = Unit {κ}
Ensures P (ok a) = P a

-- The call succeeds, and its result has the property.
abbrev pub Returns {ℓ} : {A : Type ℓ} → (A → Type 0) → Result A → Type 0
Returns P (err e) = ⊥
Returns P (ok a) = P a

abbrev pub is_ok {ℓ} : {A : Type ℓ} → Result A → Bool
is_ok (ok a) = true
is_ok (err e) = false

-- A transaction that fails leaves the state as it was.
abbrev pub after {ℓ} : {A : Type ℓ} → A → Result A → A
after s (ok s') = s'
after s (err e) = s

pub Ensures-bind {ℓ κ} :
    {A : Type ℓ} {B : Type κ} (P : A → Type 0) (Q : B → Type 0) (m : Result A) (f : A → Result B)
    → Ensures P m
    → ((a : A) → P a → Ensures Q (f a))
    → Ensures Q (m >>= f)
Ensures-bind P Q (ok a) f h k = k a h
Ensures-bind P Q (err e) f h k = tt

pub Result-cases {ℓ} :
    {A : Type ℓ} (r : Result A) → ((e : Error) × (r ≡ err e)) ⊎ ((a : A) × (r ≡ ok a))
Result-cases (ok a) = inr (a, refl)
Result-cases (err e) = inl (e, refl)

-- A property that a call ensures holds of the result that it is known to have.
pub Ensures-ok {ℓ} :
    {A : Type ℓ} (P : A → Type 0) (r : Result A) {a : A} → Ensures P r → r ≡ ok a → P a
Ensures-ok P r h e = rw e at h

-- To take the checks of an endpoint one by one.
pub Ensures-guard {ℓ} :
    {A : Type ℓ} (P : A → Type 0) (b : Bool) (e : Error) (r : Result A)
    → (b ≡ true → Ensures P r)
    → Ensures P (guard b e >> r)
Ensures-guard P true e r h = h refl
Ensures-guard P false e r h = tt

pub Ensures-or_abort {ℓ κ} :
    {A : Type ℓ} {B : Type κ} (P : B → Type 0) (o : Option A) (e : Error) (f : A → Result B)
    → ((a : A) → o ≡ some a → Ensures P (f a))
    → Ensures P (or_abort o e >>= f)
Ensures-or_abort P (some a) e f h = h a refl
Ensures-or_abort P none e f h = tt

-- What holds before a call and after its success holds after it.
pub after-Ensures {ℓ} :
    {A : Type ℓ} (P : A → Type 0) (s : A) (r : Result A) → P s → Ensures P r → P (after s r)
after-Ensures P s (ok a) h k = k
after-Ensures P s (err e) h k = h

pub Returns-map {ℓ} :
    {A : Type ℓ} {P Q : A → Type 0} (r : Result A)
    → Returns P r
    → ((a : A) → P a → Q a)
    → Returns Q r
Returns-map (ok a) h f = f a h
Returns-map (err e) h f = absurd h

pub Returns-Ensures {ℓ} :
    {A : Type ℓ} {P Q R : A → Type 0} (r : Result A)
    → Returns P r
    → Ensures Q r
    → ((a : A) → P a → Q a → R a)
    → Returns R r
Returns-Ensures (ok a) h k f = f a h k
Returns-Ensures (err e) h k f = absurd h
