-- ===== src/Xse/Enclave.antt =====
-- xse-protocol/src/crypto.rs: what the enclave accepts and decrypts. The keys, RSA-OAEP, SHA-256 and
-- ed25519 are parameters; that memory is wiped has no counterpart.
use Prim.Native.Nat.{bit_or, bit_xor}
use xcron_protocol.Prelude.{
  ℕ, zero, suc, ◌%◌, ◌/◌, Bool, true, false, ◌&&◌, Option, none, some, List, [], ◌∷◌, ◌++◌, leb,
  ltb, ◌==◌, if◌then◌else◌, length,
}
use xcron_protocol.Prelude.Decimal.{Text}
use xcron_protocol.Prelude.Fallible.{Fallible, failed, done, check, or_fail, ◌>>=◌, ◌>>◌}

pub record EncryptedSecrets : Type 0 where
  pub blob : List ℕ
  pub enclave_pubkey_hash : Text

pub record DecryptedApiKeys : Type 0 where
  pub api_key : Text
  pub api_secret : Text

-- The key pair of the enclave: the hash of its public modulus in hex, and decryption.
pub record HardwareEnclave : Type 0 where
  pub public_key_hash : Text
  pub rsa_decrypt : List ℕ → Option (List ℕ)

pub data EnclaveError : Type 0 where
  hash_length_mismatch hash_mismatch decryption_failed invalid_utf8 : EnclaveError
  invalid_secret_format : EnclaveError

-- The loop over the pairs of bytes.
unfoldable pub diff_bytes : ℕ → Text → Text → ℕ
diff_bytes diff [] bs = diff
diff_bytes diff (a ∷ as') [] = diff
diff_bytes diff (a ∷ as') (b ∷ bs) = diff_bytes (bit_or diff (bit_xor a b)) as' bs

abbrev in_range : ℕ → ℕ → ℕ → Bool
in_range lo hi b = leb lo b && leb b hi

-- The bytes that may follow: how many are missing, and the range of the next.
abbrev Pending : Type 0
Pending = ℕ × ℕ × ℕ

-- The first byte of a sequence of UTF-8, by the ranges of the Unicode standard.
unfoldable pub utf8_lead : ℕ → Option Pending
utf8_lead b =
    if ltb b 0x80
    then some (0, 0x80, 0xBF)
    else if in_range 0xC2 0xDF b
    then some (1, 0x80, 0xBF)
    else if b == 0xE0
    then some (2, 0xA0, 0xBF)
    else if b == 0xED
    then some (2, 0x80, 0x9F)
    else if in_range 0xE1 0xEF b
    then some (2, 0x80, 0xBF)
    else if b == 0xF0
    then some (3, 0x90, 0xBF)
    else if in_range 0xF1 0xF3 b
    then some (3, 0x80, 0xBF)
    else if b == 0xF4
    then some (3, 0x80, 0x8F)
    else none

unfoldable pub utf8_from : Pending → List ℕ → Bool
utf8_from (zero, lo, hi) [] = true
utf8_from (suc n, lo, hi) [] = false
utf8_from (zero, lo, hi) (b ∷ bs) = elim (utf8_lead b) [ none ↦ false | some p ↦ utf8_from p bs ]
utf8_from (suc n, lo, hi) (b ∷ bs) = in_range lo hi b && utf8_from (n, 0x80, 0xBF) bs

-- `String::from_utf8`
unfoldable pub from_utf8 : List ℕ → Option Text
from_utf8 bytes = if utf8_from (0, 0x80, 0xBF) bytes then some bytes else none

-- `split(':')`, whose separator has the code 58: the first part, and the others.
unfoldable pub split_first : Text → Text × List Text
split_first [] = ([], [])
split_first (c ∷ cs) =
    let rest = split_first cs in if c == 58 then ([], rest.0 ∷ rest.1) else (c ∷ rest.0, rest.1)

-- Two parts are a key and a secret.
unfoldable pub two_parts : Text × List Text → Fallible EnclaveError DecryptedApiKeys
two_parts (key, []) = failed invalid_secret_format
two_parts (key, secret ∷ []) = done (record { api_key = key; api_secret = secret })
two_parts (key, secret ∷ more ∷ parts) = failed invalid_secret_format

-- What follows the decryption.
unfoldable pub read_keys : List ℕ → Fallible EnclaveError DecryptedApiKeys
read_keys decrypted = do
  text ← or_fail (from_utf8 decrypted) invalid_utf8
  two_parts (split_first text)

unfoldable pub decrypt_secrets :
    HardwareEnclave → EncryptedSecrets → Fallible EnclaveError DecryptedApiKeys
decrypt_secrets enclave secrets = do
  check (length secrets.enclave_pubkey_hash == length enclave.public_key_hash) hash_length_mismatch
  check (diff_bytes 0 secrets.enclave_pubkey_hash enclave.public_key_hash == 0) hash_mismatch
  decrypted ← or_fail (enclave.rsa_decrypt secrets.blob) decryption_failed
  read_keys decrypted

pub data AuthorizationError : Type 0 where
  invalid_key_length invalid_public_key invalid_signature_length unauthorized : AuthorizationError

-- `verify_on_chain_authorization`, with ed25519's reading of a public key and its verification.
unfoldable pub verify_on_chain_authorization :
    {K : Type 0}
    → (List ℕ → Option K)
    → (K → List ℕ → List ℕ → Bool)
    → List ℕ
    → List ℕ
    → List ℕ
    → Fallible AuthorizationError (Unit {0})
verify_on_chain_authorization key_of_bytes verify payload signature pubkey = do
  check (length pubkey == 32) invalid_key_length
  key ← or_fail (key_of_bytes pubkey) invalid_public_key
  check (length signature == 64) invalid_signature_length
  check (verify key payload signature) unauthorized

pub record EphemeralStealthKeypair : Type 0 where
  pub private_key : List ℕ
  pub public_key : List ℕ
  pub viewing_key : List ℕ

-- `to_le_bytes` at a width of `k` bytes.
unfoldable pub le_bytes : ℕ → ℕ → List ℕ
le_bytes zero n = []
le_bytes (suc k) n = (n % 256) ∷ le_bytes k (n / 256)

-- `derive_ephemeral_stealth_key`, with SHA-256 and ed25519's public key of a private key.
unfoldable pub derive_ephemeral_stealth_key :
    (List ℕ → List ℕ) → (List ℕ → List ℕ) → List ℕ → List ℕ → ℕ → EphemeralStealthKeypair
unfolding le_bytes
derive_ephemeral_stealth_key sha256 public_of enclave_seed user_public_key nonce =
    let seed = sha256 (enclave_seed ++ (user_public_key ++ le_bytes 8 nonce)) in
    record {
      private_key = seed;
      public_key = public_of seed;
      viewing_key = sha256 (public_of seed);
    }
