-- ===== src/Xse/Secrets.antt =====
-- Which secrets the enclave of xse-protocol/src/crypto.rs gives out.
use Prim.Native.Nat.{bit_or, bit_xor}
use xcron_protocol.Prelude.{
  AllBytes, ℕ, ◌<◌, ◌≡◌, ◌↔◌, refl, ap, inl, inr, Bool, true, false, ◌&&◌, ◌||◌, some, Option, List,
  [], ◌∷◌, ◌++◌, arith, ◌==◌, Bool-cases, Option-cases, bytes_eq, length,
}
use xcron_protocol.Prelude.ByteOps.{bit_xor-zero, bit_xor-lt, bit_or-zero, bit_or-lt}
use xcron_protocol.Prelude.Decimal.{Text}
use xcron_protocol.Prelude.Fallible.{done}
use xcron_protocol.Xse.Enclave.{
  EncryptedSecrets, DecryptedApiKeys, HardwareEnclave, diff_bytes, from_utf8, utf8_from,
  split_first, two_parts, read_keys, decrypt_secrets,
}

abbrev pub has_colon : Text → Bool
has_colon [] = false
has_colon (c ∷ cs) = (c == 58) || has_colon cs

-- The comparison in constant time finds a difference exactly where there is one.
diff_bytes-zero :
    (d : ℕ) (as' bs : Text)
    → d < 256
    → AllBytes as'
    → AllBytes bs
    → length as' ≡ length bs
    → (diff_bytes d as' bs == 0) ≡ ((d == 0) && bytes_eq as' bs)
unfolding diff_bytes
diff_bytes-zero d [] [] l x y e = ground arith
diff_bytes-zero d [] (b ∷ bs) l x y e = absurd (omega (arith, e))
diff_bytes-zero d (a ∷ as') [] l x y e = absurd (omega (arith, e))
diff_bytes-zero d (a ∷ as') (b ∷ bs) l x y e =
    let z = bit_xor-lt a b x.0 y.0 in
    let ih =
      diff_bytes-zero (bit_or d (bit_xor a b)) as' bs (bit_or-lt d (bit_xor a b) l z) x.1 y.1
        (omega (arith, e)) in
    ground (arith, ih, bit_or-zero d (bit_xor a b) l z, bit_xor-zero a b x.0 y.0)

bytes_eq_iff : (as' bs : Text) → (bytes_eq as' bs ≡ true) ↔ (as' ≡ bs)
bytes_eq_iff [] [] = ground arith
bytes_eq_iff [] (b ∷ bs) = ground arith
bytes_eq_iff (a ∷ as') [] = ground arith
bytes_eq_iff (a ∷ as') (b ∷ bs) = ground (arith, bytes_eq_iff as' bs)

-- A text with one separator is split there, and no other text gives two parts.
split_first-none : (t : Text) → has_colon t ≡ false → split_first t ≡ (t, [])
unfolding split_first
split_first-none [] h = refl
split_first-none (c ∷ cs) h = ground (arith, h, split_first-none cs)

split_first-join :
    (key secret : Text)
    → has_colon key ≡ false
    → has_colon secret ≡ false
    → split_first (key ++ (58 ∷ secret)) ≡ (key, secret ∷ [])
unfolding split_first
split_first-join [] secret h k = ground (arith, split_first-none secret k)
split_first-join (c ∷ key) secret h k = ground (arith, h, split_first-join key secret)

split_first_whole :
    (t : Text) → (split_first t).1 ≡ [] → (t ≡ (split_first t).0) × (has_colon t ≡ false)
unfolding split_first
split_first_whole [] h = (refl, refl)
split_first_whole (c ∷ cs) h = ground (arith, h, split_first_whole cs)

split_first_sound :
    (t secret : Text)
    → (split_first t).1 ≡ secret ∷ []
    → (t ≡ (split_first t).0 ++ (58 ∷ secret))
      × (has_colon (split_first t).0 ≡ false)
      × (has_colon secret ≡ false)
unfolding split_first
split_first_sound [] secret h = ground (arith, h)
split_first_sound (c ∷ cs) secret h =
    ground (arith, h, split_first_whole cs, split_first_sound cs secret)

-- What the decrypted bytes of a blob hold: the two keys, joined by the one colon.
abbrev pub Holds : Option (List ℕ) → DecryptedApiKeys → Type 0
Holds o keys =
    (o ≡ some (keys.api_key ++ (58 ∷ keys.api_secret)))
    × (utf8_from (0, 0x80, 0xBF) (keys.api_key ++ (58 ∷ keys.api_secret)) ≡ true)
    × (has_colon keys.api_key ≡ false)
    × (has_colon keys.api_secret ≡ false)

two_parts_sound :
    (r : Text × List Text) (keys : DecryptedApiKeys)
    → two_parts r ≡ done keys
    → (r.1 ≡ keys.api_secret ∷ []) × (r.0 ≡ keys.api_key)
unfolding two_parts
two_parts_sound (key, []) keys h = ground (arith, h)
two_parts_sound (key, secret ∷ []) keys h = ground (arith, h)
two_parts_sound (key, secret ∷ more ∷ parts) keys h = ground (arith, h)

decrypted_sound :
    (text : Text) (keys : DecryptedApiKeys)
    → two_parts (split_first text) ≡ done keys
    → (text ≡ keys.api_key ++ (58 ∷ keys.api_secret))
      × (has_colon keys.api_key ≡ false)
      × (has_colon keys.api_secret ≡ false)
decrypted_sound text keys h =
    let parts = two_parts_sound (split_first text) keys h in
    let s = split_first_sound text keys.api_secret parts.0 in rw parts.1 at s

read_keys_iff :
    (bytes : List ℕ) (keys : DecryptedApiKeys)
    → (read_keys bytes ≡ done keys) ↔ Holds (some bytes) keys
unfolding read_keys from_utf8 two_parts
read_keys_iff bytes keys = (forward, backward)
  where
    forward : read_keys bytes ≡ done keys → Holds (some bytes) keys
    forward d = elim (Bool-cases (utf8_from (0, 0x80, 0xBF) bytes)) [
      | inl u ↦
          (let sound = decrypted_sound bytes keys (rw u at d) in
            (ap some sound.0, rw (← sound.0) u, sound.1, sound.2))
      | inr u ↦ ground (arith, d, u)
    ]

    backward : Holds (some bytes) keys → read_keys bytes ≡ done keys
    backward h =
        let same : bytes ≡ keys.api_key ++ (58 ∷ keys.api_secret) = ground (arith, h.0) in
        rw (same, h.1, split_first-join keys.api_key keys.api_secret h.2 h.3) refl

-- The two checks of the hash.
same_hash_iff :
    (as' bs : Text)
    → AllBytes as'
    → AllBytes bs
    → (((length as' == length bs) && (diff_bytes 0 as' bs == 0)) ≡ true) ↔ (as' ≡ bs)
same_hash_iff as' bs x y = (forward, backward)
  where
    forward : ((length as' == length bs) && (diff_bytes 0 as' bs == 0)) ≡ true → as' ≡ bs
    forward h =
        let e : length as' ≡ length bs = ground (arith, h) in
        (bytes_eq_iff as' bs).0 (ground (arith, h, diff_bytes-zero 0 as' bs (omega arith) x y e))

    backward : as' ≡ bs → ((length as' == length bs) && (diff_bytes 0 as' bs == 0)) ≡ true
    backward e = ground (
      arith,
      ap length e,
      (bytes_eq_iff as' bs).1 e,
      diff_bytes-zero 0 as' bs (omega arith) x y (ap length e),
    )

-- The enclave gives out a key and a secret exactly for a request that names the hash of its own public
-- key, byte for byte, and whose blob decrypts to the two texts joined by a colon, in UTF-8 and with no
-- other colon: what was encrypted for it that way comes back, and nothing else does.
pub decrypt_secrets_iff :
    (e : HardwareEnclave) (s : EncryptedSecrets) (keys : DecryptedApiKeys)
    → AllBytes e.public_key_hash
    → AllBytes s.enclave_pubkey_hash
    → (decrypt_secrets e s ≡ done keys)
      ↔ ((s.enclave_pubkey_hash ≡ e.public_key_hash) × Holds (e.rsa_decrypt s.blob) keys)
unfolding decrypt_secrets
decrypt_secrets_iff e s keys x y =
    let same = same_hash_iff s.enclave_pubkey_hash e.public_key_hash y x in
    elim (Option-cases (e.rsa_decrypt s.blob)) [
      | inl n ↦ ground (arith, n)
      | inr (bytes, n) ↦
          (let keys_read = read_keys_iff bytes keys in ground (arith, n, same, keys_read))
    ]
