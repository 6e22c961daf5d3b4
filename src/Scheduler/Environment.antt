-- ===== src/Scheduler/Environment.antt =====
-- What the Scheduler calls and does not implement: hashing and serialisation of the framework, and
-- the contracts that it queries synchronously, which are taken not to call back.
use xcron_protocol.Prelude.{ℕ, ◌+◌, ◌*◌, Bool, false, Option, none, some, List, [], ◌∷◌}
use xcron_protocol.Framework.{Result, Address, TokenId, Hash}
use xcron_protocol.Common.{Buffer, Task}

pub record Env : Type 0 where
  -- `sha256` of a buffer, as a 256-bit number
  pub sha256 : Buffer → Hash
  -- `top_encode` of a task into a new buffer
  pub encode_task : Task → Buffer
  -- `top_encode` of a number, a token or an endpoint name into a buffer: whether the output is
  -- replaced or extended is the framework's
  pub encode_number : ℕ → Buffer → Buffer
  pub encode_address : Address → Buffer → Buffer
  pub encode_token : TokenId → Buffer → Buffer
  pub encode_buffer : Buffer → Buffer → Buffer
  pub bool_top_decode : Buffer → Option Bool
  pub shard_of : Address → ℕ
  -- the raw results of a synchronous call, or its failure
  pub query_oracle : Address → Buffer → Result (List Buffer)
  pub verify_proof : Address → Hash → Buffer → Result (List Buffer)
  pub verify_zk_proof : Address → Hash → Buffer → Result (List Buffer)
  pub is_safe_to_execute : Address → Result (List Buffer)

-- `BigUint::from_bytes_be`
abbrev pub big_from_bytes : ℕ → Buffer → ℕ
big_from_bytes acc [] = acc
big_from_bytes acc (b ∷ bs) = big_from_bytes (acc * 256 + b) bs

module _ (env : Env) where
  -- The seal of a task: the hash of its encoding.
  abbrev pub seal : Task → Hash
  seal task = env.sha256 (env.encode_task task)

  -- The first result as a Boolean; no result and one that does not decode count as `false`.
  abbrev pub first_bool : List Buffer → Bool
  first_bool [] = false
  first_bool (r ∷ rs) = elim (env.bool_top_decode r) [ none ↦ false | some b ↦ b ]
