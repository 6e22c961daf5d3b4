-- ===== src/XscCore/Unpacking.antt =====
-- Any buffer that `verify_proof` accepts is a packed list of siblings: unpacking it, and what the answer
-- then says of the stored root.
use native.Mathlib.Nat.{mod-eq_of_lt, mod-lt, pow-suc}
use xcron_protocol.Prelude.{
  ℕ, zero, suc, ◌+◌, ◌*◌, ◌/◌, ◌%◌, ◌^◌, ◌≤◌, ◌<◌, ◌≡◌, refl, sym, ap, ◌∙◌, true, false, List, [],
  ◌∷◌, ◌++◌, arith, length, length-be_bytes, be_bytes, bytes_eq, AllBytes, ==_self, Bool, not, leb,
  ◌==◌,
}
use xcron_protocol.Framework.{
  ok, ◌>>◌, guard, Hash, protocol_paused, invalid_leaf_length, invalid_proof_length, proof_too_deep,
}
use xcron_protocol.Common.{Buffer}
use xcron_protocol.Merkle.Proof.{verify_merkle_proof, fold_packed}
use xcron_protocol.Merkle.Order.{mul_lt}
use xcron_protocol.Merkle.Agreement.{hash_bound, AllHashes, fold_proof-fold_packed}
use xcron_protocol.XscCore.Contract.{State, be_number, take, drop, fold_slices, verify_proof}
use xcron_protocol.XscCore.Packing.{
  pack, be_number-be_bytes, be_number-hash, fold_slices-pack, fold_packed-lt, bytes_eq-eq,
}

-- Bytes stand for a number below the power of 256 for their count.
be_number-lt : (xs : Buffer) → AllBytes xs → be_number xs < 256 ^ length xs
unfolding be_number
be_number-lt [] b = omega arith
be_number-lt (x ∷ xs) b =
    rw (pow-suc 256 (length xs))
      (omega (arith, be_number-lt xs b.1, mul_lt x 256 (256 ^ length xs) b.0))

AllBytes-be_bytes : (k n : ℕ) → AllBytes (be_bytes k n)
unfolding be_bytes
AllBytes-be_bytes zero n = tt
AllBytes-be_bytes (suc k) n = (mod-lt (n / 256 ^ k) (omega arith), AllBytes-be_bytes k n)

-- The top digit and the rest are determined by the number.
digits_unique : (x y r s p : ℕ) → r < p → s < p → x * p + r ≡ y * p + s → (x ≡ y) × (r ≡ s)
digits_unique x y r s p hr hs e = ground (arith, e, mul_lt x y p, mul_lt y x p)

-- Two byte strings of one length that stand for the same number are the same.
be_number-injective :
    (xs ys : Buffer)
    → AllBytes xs
    → AllBytes ys
    → length xs ≡ length ys
    → be_number xs ≡ be_number ys
    → xs ≡ ys
unfolding be_number
be_number-injective [] [] bx by n e = refl
be_number-injective [] (y ∷ ys) bx by n e = ground (arith, n)
be_number-injective (x ∷ xs) [] bx by n e = ground (arith, n)
be_number-injective (x ∷ xs) (y ∷ ys) bx by n e =
    let same : length ys ≡ length xs = omega (arith, n) in
    let bound : be_number ys < 256 ^ length xs = rw (← same) (be_number-lt ys by.1) in
    let parts =
      digits_unique x y (be_number xs) (be_number ys) (256 ^ length xs) (be_number-lt xs bx.1) bound
        (rw same at e) in
    ap (λ h. h ∷ xs) parts.0
    ∙ ap (λ t. y ∷ t) (be_number-injective xs ys bx.1 by.1 (sym same) parts.1)

be_bytes-be_number : (xs : Buffer) → AllBytes xs → length xs ≡ 32 → be_bytes 32 (be_number xs) ≡ xs
be_bytes-be_number xs b n =
    let less = be_number-lt xs b in
    let bound : be_number xs < 256 ^ 32 = rw n at less in
    be_number-injective (be_bytes 32 (be_number xs)) xs (AllBytes-be_bytes 32 (be_number xs)) b
      (length-be_bytes 32 (be_number xs) ∙ sym n)
      (be_number-be_bytes 32 (be_number xs) ∙ mod-eq_of_lt bound)

take-drop : (n : ℕ) (xs : Buffer) → take n xs ++ drop n xs ≡ xs
take-drop zero xs = refl
take-drop (suc n) [] = refl
take-drop (suc n) (x ∷ xs) = ap (λ l. x ∷ l) (take-drop n xs)

length-take : (n : ℕ) (xs : Buffer) → n ≤ length xs → length (take n xs) ≡ n
length-take zero xs h = refl
length-take (suc n) [] h = ground (arith, h)
length-take (suc n) (x ∷ xs) h = omega (arith, length-take n xs (omega (arith, h)))

length-drop : (n : ℕ) (xs : Buffer) → n ≤ length xs → length (drop n xs) + n ≡ length xs
length-drop zero xs h = omega arith
length-drop (suc n) [] h = ground (arith, h)
length-drop (suc n) (x ∷ xs) h = omega (arith, length-drop n xs (omega (arith, h)))

AllBytes-take : (n : ℕ) (xs : Buffer) → AllBytes xs → AllBytes (take n xs)
AllBytes-take zero xs b = tt
AllBytes-take (suc n) [] b = tt
AllBytes-take (suc n) (x ∷ xs) b = (b.0, AllBytes-take n xs b.1)

AllBytes-drop : (n : ℕ) (xs : Buffer) → AllBytes xs → AllBytes (drop n xs)
AllBytes-drop zero xs b = b
AllBytes-drop (suc n) [] b = tt
AllBytes-drop (suc n) (x ∷ xs) b = AllBytes-drop n xs b.1

-- The hashes that `n` slices of 32 bytes stand for.
abbrev pub unpack : ℕ → Buffer → List Hash
unpack zero p = []
unpack (suc n) p = be_number (take 32 p) ∷ unpack n (drop 32 p)

length-unpack : (n : ℕ) (p : Buffer) → length (unpack n p) ≡ n
length-unpack zero p = refl
length-unpack (suc n) p = omega (arith, length-unpack n (drop 32 p))

pack-unpack : (n : ℕ) (p : Buffer) → AllBytes p → length p ≡ 32 * n → pack (unpack n p) ≡ p
pack-unpack zero [] b e = refl
pack-unpack zero (x ∷ p) b e = ground (arith, e)
pack-unpack (suc n) p b e =
    let long : 32 ≤ length p = omega (arith, e) in
    let rest =
      pack-unpack n (drop 32 p) (AllBytes-drop 32 p b) (omega (arith, e, length-drop 32 p long)) in
    let first = be_bytes-be_number (take 32 p) (AllBytes-take 32 p b) (length-take 32 p long) in
    rw (first, rest) (take-drop 32 p)

AllHashes-unpack : (n : ℕ) (p : Buffer) → AllBytes p → length p ≡ 32 * n → AllHashes (unpack n p)
AllHashes-unpack zero p b e = tt
AllHashes-unpack (suc n) p b e =
    let long : 32 ≤ length p = omega (arith, e) in
    let bound = be_number-lt (take 32 p) (AllBytes-take 32 p b) in
    (
      rw (length-take 32 p long) at bound,
      AllHashes-unpack n (drop 32 p) (AllBytes-drop 32 p b)
          (omega (arith, e, length-drop 32 p long)),
    )

-- The leaf is proved, by siblings that the buffer packs, to be under the root that is stored.
pub record IsUnderRoot (sha256 : Buffer → Hash) (h : Hash) (p : Buffer) (s : State)
    (siblings : List Hash) (r : Hash) : Type 0 where
  pub running : s.is_paused ≡ false
  pub packed : p ≡ pack siblings
  pub short : length siblings ≤ 32
  pub stored : s.merkle_root ≡ be_bytes 32 r
  pub is_hash : r < hash_bound
  pub proved : verify_merkle_proof sha256 h siblings r ≡ true

-- The four guards of `verify_proof` over their conditions.
all_passed :
    (paused sized whole short answer : Bool)
    → (do
      guard (not paused) protocol_paused
      guard sized invalid_leaf_length
      guard whole invalid_proof_length
      guard short proof_too_deep
      ok answer)
      ≡ ok true
    → (paused ≡ false) × (whole ≡ true) × (short ≡ true) × (answer ≡ true)
all_passed true sized whole short answer e = ground (arith, e)
all_passed false sized whole short answer e = ground (arith, e)

multiple_of_32 : (n : ℕ) → (n % 32 == 0) ≡ true → n ≡ 32 * (n / 32)
multiple_of_32 n e = ground (arith, e)

at_most_1024 : (n : ℕ) → leb n 1024 ≡ true → n ≤ 1024
at_most_1024 n e = ground (arith, e)

module _ (sha256 : Buffer → Hash) (bounded : (b : Buffer) → sha256 b < hash_bound) where
  verify_proof-checks :
      (leaf p : Buffer) (s : State)
      → verify_proof sha256 leaf p s ≡ ok true
      → (s.is_paused ≡ false)
        × (length p ≡ 32 * (length p / 32))
        × (length p ≤ 1024)
        × (be_bytes 32 (fold_slices sha256 (length p / 32) 0 (be_number leaf) p) ≡ s.merkle_root)
  unfolding verify_proof
  verify_proof-checks leaf p s d =
      let root = be_bytes 32 (fold_slices sha256 (length p / 32) 0 (be_number leaf) p) in
      let n = length p in
      let passed =
        all_passed s.is_paused (length leaf == 32) (n % 32 == 0) (leb n 1024)
          (bytes_eq root s.merkle_root) d in
      (
        passed.0,
        multiple_of_32 n passed.1,
        at_most_1024 n passed.2,
        bytes_eq-eq root s.merkle_root passed.3,
      )

  -- If the answer for any buffer of bytes is true, then the leaf is proved by what it unpacks to.
  pub verify_proof-proves :
      (h : Hash) (p : Buffer) (s : State)
      → h < hash_bound
      → AllBytes p
      → verify_proof sha256 (be_bytes 32 h) p s ≡ ok true
      → (siblings : List Hash) × (r : Hash) × IsUnderRoot sha256 h p s siblings r
  unfolding verify_merkle_proof
  verify_proof-proves h p s hb bytes d =
      let checks = verify_proof-checks (be_bytes 32 h) p s d in
      let n = length p / 32 in
      let siblings = unpack n p in
      let r = fold_packed sha256 h siblings in
      let packed = pack-unpack n p bytes checks.1 in
      let hashes = AllHashes-unpack n p bytes checks.1 in
      let folded : fold_slices sha256 n 0 (be_number (be_bytes 32 h)) p ≡ r =
        ap (λ k. fold_slices sha256 n 0 k p) (be_number-hash h hb)
        ∙ ap (λ b. fold_slices sha256 n 0 h b) (sym packed)
        ∙ ap (λ k. fold_slices sha256 k 0 h (pack siblings)) (sym (length-unpack n p))
        ∙ fold_slices-pack sha256 siblings [] 0 h refl hashes in
      (
        siblings,
        r,
        record {
          running = checks.0;
          packed = sym packed;
          short = omega (arith, checks.2, length-unpack n p);
          stored = sym checks.3 ∙ ap (be_bytes 32) folded;
          is_hash = fold_packed-lt sha256 bounded h siblings hb;
          proved = rw (fold_proof-fold_packed sha256 bounded h siblings hb hashes) (==_self r);
        },
      )
