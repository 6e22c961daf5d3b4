-- ===== src/Agents/Identity.antt =====
-- contracts/xcron-agent-shield/identity-registry/src: storage.rs, utils.rs and lib.rs, without
-- the issue of the token. The nonce of a new NFT comes from the chain.
use xcron_protocol.Prelude.{
  ℕ, ◌≡◌, refl, true, false, not, Option, none, some, List, [], ◌∷◌, ltb, ◌==◌, ==_self, is_some,
  if◌then◌else◌, Dict, insert, erase, read_or,
}
use xcron_protocol.Framework.{
  Result, ok, err, ◌>>=◌, ◌>>◌, guard, or_abort, Address, TokenId, Ctx, Account, emit, send_esdt,
  non_payable, Returns, decode_error, token_not_issued, already_registered, invalid_nft,
  not_agent_owner, zero_amount_in,
}
use xcron_protocol.Common.{Buffer}
use xcron_protocol.Agents.Types.{
  AgentDetails, MetadataEntry, ServiceConfigInput, Payment, BiDiMapper, get_value, contains_id,
  contains_value, insert_pair,
}

pub record State (B : Type 0) : Type 0 where
  pub agent_token_id : Option TokenId
  pub agents : B
  pub agent_details : Dict AgentDetails
  pub agent_metadata : Dict (Dict Buffer)
  pub agent_service_config : Dict (Dict Payment)
  pub account : Account

-- The loops of `sync_metadata` and `remove_metadata`, on one agent's map.
unfoldable put_metadata : List MetadataEntry → Dict Buffer → Dict Buffer
put_metadata [] d = d
put_metadata (e ∷ es) d = put_metadata es (insert e.key e.value d)

unfoldable remove_keys {ℓ} : {V : Type ℓ} → List ℕ → Dict V → Dict V
remove_keys [] d = d
remove_keys (k ∷ ks) d = remove_keys ks (erase k d)

-- The loop of `sync_service_configs`: a price of zero aborts.
unfoldable put_services : List ServiceConfigInput → Dict Payment → Result (Dict Payment)
put_services [] d = ok d
put_services (e ∷ es) d =
    let rest = put_services es (
      insert e.service_id
        (record { token_identifier = e.token; token_nonce = e.nonce; amount = e.price }) d) in
    if ltb 0 e.price then rest else err zero_amount_in

module _ {B : Type 0} where
  unfoldable pub sync_metadata : ℕ → List MetadataEntry → State B → State B
  unfolding put_metadata
  sync_metadata nonce entries s = record s {
    agent_metadata =
        insert nonce (put_metadata entries (read_or [] nonce s.agent_metadata)) s.agent_metadata;
  }

  unfoldable sync_service_configs : ℕ → List ServiceConfigInput → State B → Result (State B)
  unfolding put_services
  sync_service_configs nonce configs s = do
    services ← put_services configs (read_or [] nonce s.agent_service_config)
    ok (record s { agent_service_config = insert nonce services s.agent_service_config })

  -- Optional arguments.
  abbrev optional_metadata : ℕ → Option (List MetadataEntry) → State B → State B
  optional_metadata nonce none s = s
  optional_metadata nonce (some entries) s = sync_metadata nonce entries s

  abbrev optional_services : ℕ → Option (List ServiceConfigInput) → State B → Result (State B)
  optional_services nonce none s = ok s
  optional_services nonce (some configs) s = sync_service_configs nonce configs s

module _ {B : Type 0} ⦃bidi : BiDiMapper B⦄ where
  abbrev require_agent_owner : Ctx → ℕ → State B → Result (Unit {0})
  require_agent_owner c nonce s = do
    owner ← or_abort (get_value nonce s.agents) decode_error
    guard (c.caller == owner) not_agent_owner

  unfoldable register_agent :
      Ctx
      → ℕ
      → Buffer
      → Buffer
      → List MetadataEntry
      → List ServiceConfigInput
      → State B
      → Result (State B)
  register_agent c nonce name public_key metadata services s = do
    non_payable c
    token ← or_abort s.agent_token_id token_not_issued
    guard (not (contains_value c.caller s.agents)) already_registered
    let details : AgentDetails = record { name = name; public_key = public_key }
    s1 ← sync_service_configs nonce services (
        sync_metadata nonce metadata (record s {
          agents = insert_pair nonce c.caller s.agents;
          agent_details = insert nonce details s.agent_details;
        }))
    ok (record s1 { account = emit (send_esdt c.caller token 1) s1.account })

  -- The NFT that is sent in goes back to the caller.
  unfoldable update_agent :
      Ctx
      → Payment
      → Option (List MetadataEntry)
      → Option (List ServiceConfigInput)
      → State B
      → Result (State B)
  update_agent c payment metadata services s = do
    token ← or_abort s.agent_token_id token_not_issued
    guard (payment.token_identifier == token) invalid_nft
    let nonce = payment.token_nonce
    require_agent_owner c nonce s
    s2 ← optional_services nonce services (optional_metadata nonce metadata s)
    ok (record s2 { account = emit (send_esdt c.caller token 1) s2.account })

  unfoldable pub sync_ownership : Ctx → Payment → State B → Result (State B)
  sync_ownership c payment s = do
    token ← or_abort s.agent_token_id token_not_issued
    guard (payment.token_identifier == token) invalid_nft
    ok (record s {
      agents = insert_pair payment.token_nonce c.caller s.agents;
      account = emit (send_esdt c.caller token 1) s.account;
    })

  unfoldable pub set_metadata : Ctx → ℕ → List MetadataEntry → State B → Result (State B)
  set_metadata c nonce entries s = do
    guard (is_some s.agent_token_id) token_not_issued
    require_agent_owner c nonce s
    ok (sync_metadata nonce entries s)

  unfoldable set_service_configs : Ctx → ℕ → List ServiceConfigInput → State B → Result (State B)
  set_service_configs c nonce configs s = do
    guard (is_some s.agent_token_id) token_not_issued
    require_agent_owner c nonce s
    sync_service_configs nonce configs s

  unfoldable remove_metadata : Ctx → ℕ → List ℕ → State B → Result (State B)
  unfolding remove_keys
  remove_metadata c nonce keys s = do
    guard (is_some s.agent_token_id) token_not_issued
    require_agent_owner c nonce s
    ok (record s {
      agent_metadata =
          insert nonce (remove_keys keys (read_or [] nonce s.agent_metadata)) s.agent_metadata;
    })

  unfoldable remove_service_configs : Ctx → ℕ → List ℕ → State B → Result (State B)
  unfolding remove_keys
  remove_service_configs c nonce service_ids s = do
    guard (is_some s.agent_token_id) token_not_issued
    require_agent_owner c nonce s
    ok (record s {
      agent_service_config =
          insert nonce (remove_keys service_ids (read_or [] nonce s.agent_service_config))
            s.agent_service_config;
    })

  -- Whoever holds the NFT of a registered agent and syncs the ownership stays without the rights of
  -- its owner: an insertion at an id that is taken does nothing, so the call succeeds with no effect
  -- on the registry, and the holder's next change of the metadata is refused.
  pub sync_ownership_without_effect :
      (c : Ctx) (owner token : Address) (payment : Payment) (entries : List MetadataEntry)
      (s : State B)
      → s.agent_token_id ≡ some token
      → payment.token_identifier ≡ token
      → contains_id payment.token_nonce s.agents ≡ true
      → get_value payment.token_nonce s.agents ≡ some owner
      → (c.caller == owner) ≡ false
      → Returns
          (λ s'.
            (s'.agents ≡ s.agents)
            × (set_metadata c payment.token_nonce entries s' ≡ err not_agent_owner))
          (sync_ownership c payment s)
  unfolding sync_ownership set_metadata
  sync_ownership_without_effect c owner token payment entries s issued same taken owned other =
      let e : insert_pair payment.token_nonce c.caller s.agents ≡ s.agents =
        bidi.insert_pair-taken payment.token_nonce c.caller s.agents (rw taken refl) in
      rw (issued, same, ==_self token, e, owned, other) (refl, refl)
