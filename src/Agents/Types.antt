-- ===== src/Agents/Types.antt =====
-- contracts/xcron-agent-shield/common/src/structs.rs, and what the contracts use of `BiDiMapper`. Keys
-- of metadata and identifiers of jobs and requests are numbers.
use xcron_protocol.Prelude.{ℕ, ◌≡◌, Bool, true, false, ◌||◌, Option, some, ◌==◌, if◌then◌else◌}
use xcron_protocol.Framework.{Address, TokenId}
use xcron_protocol.Common.{Buffer}

pub data JobStatus : Type 0 where
  new pending verified validation_requested rejected : JobStatus

pub record JobData : Type 0 where
  pub status : JobStatus
  pub proof : Buffer
  pub employer : Address
  pub creation_timestamp : ℕ
  pub agent_nonce : ℕ

pub record ValidationRequestData : Type 0 where
  pub validator_address : Address
  pub agent_nonce : ℕ
  pub job_id : ℕ
  pub response : ℕ
  pub response_hash : Buffer
  pub tag : Buffer
  pub last_update : ℕ

pub record AgentDetails : Type 0 where
  pub name : Buffer
  pub public_key : Buffer

pub record MetadataEntry : Type 0 where
  pub key : ℕ
  pub value : Buffer

pub record ServiceConfigInput : Type 0 where
  pub service_id : ℕ
  pub price : ℕ
  pub token : TokenId
  pub nonce : ℕ

-- A token payment.
pub record Payment : Type 0 where
  pub token_identifier : TokenId
  pub token_nonce : ℕ
  pub amount : ℕ

-- `BiDiMapper` between numbers: `insert` of an id or a value that is present changes nothing. The id of
-- a value that is absent is 0.
pub record BiDiMapper (B : Type 0) : Type 0 where
  pub get_value : ℕ → B → Option ℕ
  pub get_id : ℕ → B → ℕ
  pub contains_id : ℕ → B → Bool
  pub contains_value : ℕ → B → Bool
  pub insert_pair : ℕ → ℕ → B → B
  pub insert_pair-taken :
      (i v : ℕ) (b : B) → (contains_id i b || contains_value v b) ≡ true → insert_pair i v b ≡ b
  pub get_value-insert_pair :
      (i j v : ℕ) (b : B)
      → (contains_id i b || contains_value v b) ≡ false
      → get_value j (insert_pair i v b) ≡ (if i == j then some v else get_value j b)

module _ {B : Type 0} ⦃m : BiDiMapper B⦄ where
  abbrev pub get_value : ℕ → B → Option ℕ
  get_value = m.get_value

  abbrev pub get_id : ℕ → B → ℕ
  get_id = m.get_id

  abbrev pub contains_id : ℕ → B → Bool
  contains_id = m.contains_id

  abbrev pub contains_value : ℕ → B → Bool
  contains_value = m.contains_value

  abbrev pub insert_pair : ℕ → ℕ → B → B
  insert_pair = m.insert_pair
