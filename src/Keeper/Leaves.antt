-- ===== src/Keeper/Leaves.antt =====
-- xcron-keeper-rs/src/pcit.rs: how the keeper hashes a leaf, next to `executePreCognitiveLeaf` of
-- contracts/scheduler/src/intents.rs, which has the framework encode it piece by piece into one buffer.
use mathlib.Core.List.{append-nil, append_assoc}
use xcron_protocol.Prelude.{
  ℕ, ◌≡◌, refl, sym, ap, ◌∙◌, List, [], ◌∷◌, ◌++◌, ltb, if◌then◌else◌, be_bytes, length,
}
use xcron_protocol.Framework.{Address, TokenId, Hash, u32}
use xcron_protocol.Common.{Buffer}
use xcron_protocol.Scheduler.Environment.{Env}
use xcron_protocol.Scheduler.Intents.{Leaf, append_args, leaf_hash}
use xcron_protocol.Merkle.Proof.{verify_merkle_proof}

-- `PcitLeaf`: the token is its text.
pub record PcitLeaf : Type 0 where
  pub target_contract : Address
  pub target_endpoint : Buffer
  pub target_args : List Buffer
  pub expected_token_out : Buffer
  pub min_return : ℕ

-- The arguments, each behind its length in four bytes.
unfoldable pub encode_args : List Buffer → Buffer
encode_args [] = []
encode_args (arg ∷ args) = (be_bytes 4 (u32 (length arg)) ++ arg) ++ encode_args args

-- `top_encode`, with `to_bytes_be` of the big integers, which are left out when zero.
unfoldable pub top_encode : (ℕ → Buffer) → PcitLeaf → Buffer
unfolding encode_args
top_encode to_bytes_be leaf =
    be_bytes 32 leaf.target_contract
    ++ (leaf.target_endpoint
        ++ (encode_args leaf.target_args
            ++ (leaf.expected_token_out
                ++ (if ltb 0 leaf.min_return then to_bytes_be leaf.min_return else []))))

unfoldable pub to_hash : (Buffer → Hash) → (ℕ → Buffer) → PcitLeaf → Hash
to_hash sha256 to_bytes_be leaf = sha256 (top_encode to_bytes_be leaf)

-- The leaf of the contract that the keeper means, with the text of a token identifier.
abbrev pub pcit_leaf : (TokenId → Buffer) → Leaf → PcitLeaf
pcit_leaf token_name leaf = record {
  target_contract = leaf.target_contract;
  target_endpoint = leaf.target_endpoint;
  target_args = leaf.target_args;
  expected_token_out = token_name leaf.expected_token_out;
  min_return = leaf.min_return;
}

-- An environment whose encodings are put behind what the buffer holds.
pub record IsAppending (env : Env) (to_bytes_be : ℕ → Buffer) (token_name : TokenId → Buffer)
    : Type 0 where
  pub address_appended : (a : Address) (b : Buffer) → env.encode_address a b ≡ b ++ be_bytes 32 a
  pub buffer_appended : (x b : Buffer) → env.encode_buffer x b ≡ b ++ x
  pub token_appended : (t : TokenId) (b : Buffer) → env.encode_token t b ≡ b ++ token_name t
  pub number_appended :
      (n : ℕ) (b : Buffer) → env.encode_number n b ≡ b ++ (if ltb 0 n then to_bytes_be n else [])

-- The contract's loop puts the arguments behind the buffer.
append_args-encode_args :
    (args : List Buffer) (b : Buffer) → append_args args b ≡ b ++ encode_args args
unfolding encode_args
append_args-encode_args [] b = rw append-nil refl
append_args-encode_args (arg ∷ args) b =
    rw (append_args-encode_args args (b ++ (be_bytes 4 (u32 (length arg)) ++ arg)))
      (append_assoc b (be_bytes 4 (u32 (length arg)) ++ arg) (encode_args args))

-- If the framework's encodings extend the buffer, the keeper's hash of a leaf is the contract's.
pub to_hash-leaf_hash :
    (env : Env) (to_bytes_be : ℕ → Buffer) (token_name : TokenId → Buffer)
    → IsAppending env to_bytes_be token_name
    → (leaf : Leaf)
    → to_hash env.sha256 to_bytes_be (pcit_leaf token_name leaf) ≡ leaf_hash env leaf
unfolding to_hash top_encode leaf_hash
to_hash-leaf_hash env to_bytes_be token_name h leaf =
    let a = be_bytes 32 leaf.target_contract in
    let e = leaf.target_endpoint in
    let args = encode_args leaf.target_args in
    let t = token_name leaf.expected_token_out in
    let n : Buffer = if ltb 0 leaf.min_return then to_bytes_be leaf.min_return else [] in
    let chain : env.encode_number leaf.min_return (
          env.encode_token leaf.expected_token_out (
            append_args leaf.target_args
              (env.encode_buffer e (env.encode_address leaf.target_contract []))))
        ≡ ((((a ++ e) ++ args) ++ t) ++ n) =
      rw
        (
          h.address_appended leaf.target_contract [],
          h.buffer_appended e a,
          append_args-encode_args leaf.target_args (a ++ e),
          h.token_appended leaf.expected_token_out ((a ++ e) ++ args),
          h.number_appended leaf.min_return (((a ++ e) ++ args) ++ t),
        )
        refl in
    let flat : ((((a ++ e) ++ args) ++ t) ++ n) ≡ (a ++ (e ++ (args ++ (t ++ n)))) =
      append_assoc ((a ++ e) ++ args) t n
      ∙ (append_assoc (a ++ e) args (t ++ n) ∙ append_assoc a e (args ++ (t ++ n))) in
    sym (ap env.sha256 (chain ∙ flat))

-- If they replace what the buffer holds, as `top_encode` into a `ManagedBuffer` is documented to, the
-- contract's hash depends on the minimum return alone: a proof for one leaf is a proof for every leaf
-- with the same minimum, whatever its target, its arguments and its token.
pub replaced_leaf_hash_forgets :
    (env : Env)
    → ((n : ℕ) (b b' : Buffer) → env.encode_number n b ≡ env.encode_number n b')
    → (leaf leaf' : Leaf) (proof : List Hash) (merkle_root : Hash)
    → leaf.min_return ≡ leaf'.min_return
    → verify_merkle_proof env.sha256 (leaf_hash env leaf) proof merkle_root
      ≡ verify_merkle_proof env.sha256 (leaf_hash env leaf') proof merkle_root
unfolding leaf_hash
replaced_leaf_hash_forgets env replaces leaf leaf' proof merkle_root e =
    let with_endpoint : Leaf → Buffer =
      λ (l : Leaf). env.encode_buffer l.target_endpoint (env.encode_address l.target_contract []) in
    let whole : Leaf → Buffer = λ (l : Leaf).
      env.encode_token l.expected_token_out (append_args l.target_args (with_endpoint l)) in
    ap (λ (b : Buffer). verify_merkle_proof env.sha256 (env.sha256 b) proof merkle_root)
      (ap (λ (n : ℕ). env.encode_number n (whole leaf)) e
        ∙ replaces leaf'.min_return (whole leaf) (whole leaf'))
