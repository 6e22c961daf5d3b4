-- ===== src/XscCore/Packing.antt =====
-- Packed proofs: what a service packs is what `verify_proof` unpacks.
use native.Mathlib.Nat.{mod-eq_of_lt, pow-suc}
use xcron_protocol.Prelude.{
  ℕ, zero, suc, ◌+◌, ◌*◌, ◌/◌, ◌%◌, ◌^◌, ◌≤◌, ◌<◌, ◌≡◌, refl, sym, ap, ◌∙◌, true, false, List, [],
  ◌∷◌, ◌++◌, arith, length, length-append, length-be_bytes, bytes_eq, be_bytes, ◌⊎◌, ==_self,
  ==_iff, ◌==◌, Bool-cases, inl, inr, leb,
}
use xcron_protocol.Framework.{ok, after, after-Ensures, Ctx, Hash, Ensures}
use xcron_protocol.Common.{Buffer}
use xcron_protocol.Merkle.Proof.{verify_merkle_proof, fold_packed, compute_parent_hash}
use xcron_protocol.Merkle.Order.{mod_split, pow_pos}
use xcron_protocol.Merkle.Agreement.{hash_bound, AllHashes, fold_proof-fold_packed}
use xcron_protocol.XscCore.Contract.{
  State, be_number, take, drop, slice, fold_slices, verify_proof, update_root, set_paused,
  set_authorized_keeper, upgrade, Call, dispatch, run,
}

-- The siblings, each in 32 bytes, one after the other.
abbrev pub pack : List Hash → Buffer
pack [] = []
pack (h ∷ hs) = be_bytes 32 h ++ pack hs

pub be_number-be_bytes : (k n : ℕ) → be_number (be_bytes k n) ≡ n % 256 ^ k
unfolding be_number be_bytes
be_number-be_bytes zero n = omega arith
be_number-be_bytes (suc k) n =
    rw
      (
        pow-suc 256 k,
        mod_split n (256 ^ k) (pow_pos k),
        length-be_bytes k n,
        be_number-be_bytes k n,
      )
      refl

-- The 32 bytes of a hash stand for the hash.
pub be_number-hash : (h : Hash) → h < hash_bound → be_number (be_bytes 32 h) ≡ h
be_number-hash h b = be_number-be_bytes 32 h ∙ mod-eq_of_lt b

take-append : (n : ℕ) (xs ys : Buffer) → length xs ≡ n → take n (xs ++ ys) ≡ xs
take-append n [] ys e = rw (sym e) refl
take-append n (x ∷ xs) ys e = rw (sym e) (ap (λ l. x ∷ l) (take-append (length xs) xs ys refl))

drop-append : (n : ℕ) (xs ys : Buffer) → length xs ≡ n → drop n (xs ++ ys) ≡ ys
drop-append n [] ys e = rw (sym e) refl
drop-append n (x ∷ xs) ys e = rw (sym e) (drop-append (length xs) xs ys refl)

append_assoc : (xs ys zs : Buffer) → (xs ++ ys) ++ zs ≡ xs ++ (ys ++ zs)
append_assoc [] ys zs = refl
append_assoc (x ∷ xs) ys zs = ap (λ l. x ∷ l) (append_assoc xs ys zs)

slice-pack :
    (before : Buffer) (h : Hash) (hs : List Hash) (offset : ℕ)
    → length before ≡ offset
    → slice offset (before ++ pack (h ∷ hs)) ≡ be_bytes 32 h
slice-pack before h hs offset e =
    ap (take 32) (drop-append offset before (pack (h ∷ hs)) e)
    ∙ take-append 32 (be_bytes 32 h) (pack hs) (length-be_bytes 32 h)

module _ (sha256 : Buffer → Hash) where
  pub fold_slices-pack :
      (hs : List Hash) (before : Buffer) (offset : ℕ) (h : Hash)
      → length before ≡ offset
      → AllHashes hs
      → fold_slices sha256 (length hs) offset h (before ++ pack hs) ≡ fold_packed sha256 h hs
  unfolding fold_slices fold_packed
  fold_slices-pack [] before offset h e b = refl
  fold_slices-pack (x ∷ hs) before offset h e b =
      let packed = before ++ pack (x ∷ hs) in
      let sibling : be_number (slice offset packed) ≡ x =
        ap be_number (slice-pack before x hs offset e) ∙ be_number-hash x b.0 in
      let next = compute_parent_hash sha256 h x in
      ap (λ n. fold_slices sha256 (length hs) (offset + 32) (compute_parent_hash sha256 h n) packed)
        sibling
      ∙ ap (fold_slices sha256 (length hs) (offset + 32) next)
          (sym (append_assoc before (be_bytes 32 x) (pack hs)))
      ∙ fold_slices-pack hs (before ++ be_bytes 32 x) (offset + 32) next
          (omega (arith, e, length-append before (be_bytes 32 x), length-be_bytes 32 x)) b.1

length-pack : (hs : List Hash) → length (pack hs) ≡ 32 * length hs
length-pack [] = refl
length-pack (h ∷ hs) =
    omega (arith, length-append (be_bytes 32 h) (pack hs), length-be_bytes 32 h, length-pack hs)

bytes_eq_self : (xs : Buffer) → bytes_eq xs xs ≡ true
bytes_eq_self [] = refl
bytes_eq_self (x ∷ xs) = rw (==_self x) (bytes_eq_self xs)

pub bytes_eq-eq : (xs ys : Buffer) → bytes_eq xs ys ≡ true → xs ≡ ys
bytes_eq-eq [] [] e = refl
bytes_eq-eq [] (y ∷ ys) e = ground (arith, e)
bytes_eq-eq (x ∷ xs) [] e = ground (arith, e)
bytes_eq-eq (x ∷ xs) (y ∷ ys) e = ground (arith, e, bytes_eq-eq xs ys)

-- Hashes are equal when their bytes are.
bytes_eq-hash :
    (a b : Hash)
    → a < hash_bound
    → b < hash_bound
    → bytes_eq (be_bytes 32 a) (be_bytes 32 b) ≡ (a == b)
bytes_eq-hash a b ha hb = elim (Bool-cases (bytes_eq (be_bytes 32 a) (be_bytes 32 b))) [
  | inl e ↦
      let q : a ≡ b =
        sym (be_number-hash a ha)
        ∙ ap be_number (bytes_eq-eq (be_bytes 32 a) (be_bytes 32 b) e)
        ∙ be_number-hash b hb in
      rw e (sym ((==_iff a b).1 q))
  | inr e ↦ elim (Bool-cases (a == b)) [
    | inl k ↦
        let same : bytes_eq (be_bytes 32 a) (be_bytes 32 b) ≡ true =
          rw ((==_iff a b).0 k) (bytes_eq_self (be_bytes 32 b)) in
        cc
    | inr k ↦ cc
  ]
]

module _ (sha256 : Buffer → Hash) (bounded : (b : Buffer) → sha256 b < hash_bound) where
  pub fold_packed-lt :
      (h : Hash) (hs : List Hash) → h < hash_bound → fold_packed sha256 h hs < hash_bound
  unfolding fold_packed compute_parent_hash
  fold_packed-lt h [] b = b
  fold_packed-lt h (x ∷ hs) b = fold_packed-lt (compute_parent_hash sha256 h x) hs (bounded _)

  -- xsc-core, on a packed proof of at most 32 siblings, answers what the Scheduler's check answers on
  -- the list of them, while it is not paused: the packing loses nothing, and the two contracts accept
  -- the same leaves under the same root.
  pub verify_proof-verify_merkle_proof :
      (h r : Hash) (proof : List Hash) (s : State)
      → (h < hash_bound) × (r < hash_bound) × AllHashes proof
      → length proof ≤ 32
      → (s.is_paused ≡ false) × (s.merkle_root ≡ be_bytes 32 r)
      → verify_proof sha256 (be_bytes 32 h) (pack proof) s
        ≡ ok (verify_merkle_proof sha256 h proof r)
  unfolding verify_proof verify_merkle_proof
  verify_proof-verify_merkle_proof h r proof s b short e =
      let n : length (pack proof) ≡ 32 * length proof = length-pack proof in
      let m : (32 * length proof % 32 == 0) ≡ true = ground arith in
      let d : 32 * length proof / 32 ≡ length proof = omega arith in
      let l : leb (32 * length proof) 1024 ≡ true = ground (arith, short) in
      rw
        (
          e.0,
          e.1,
          length-be_bytes 32 h,
          n,
          m,
          d,
          l,
          be_number-hash h b.0,
          fold_slices-pack sha256 proof [] 0 h refl b.2,
          bytes_eq-hash (fold_packed sha256 h proof) r (fold_packed-lt h proof b.0) b.1,
          fold_proof-fold_packed sha256 bounded h proof b.0 b.2,
        )
        refl

-- A stored root has 32 bytes, or there is none.
abbrev IsRootSized : State → Type 0
IsRootSized s = (length s.merkle_root ≡ 0) ⊎ (length s.merkle_root ≡ 32)

dispatch-IsRootSized :
    (c : Ctx) (call : Call) (s : State) → IsRootSized s → Ensures IsRootSized (dispatch c call s)
unfolding dispatch update_root set_paused set_authorized_keeper upgrade
dispatch-IsRootSized c (Call.update_call new_root) s h = ground arith
dispatch-IsRootSized c _ s h = ground arith

-- No transaction stores a root of another length than 32 bytes.
pub run-IsRootSized :
    (calls : List (Ctx × Call)) (s : State) → IsRootSized s → IsRootSized (run calls s)
unfolding run
run-IsRootSized [] s h = h
run-IsRootSized ((c, call) ∷ calls) s h =
    run-IsRootSized calls (after s (dispatch c call s))
      (after-Ensures IsRootSized s (dispatch c call s) h (dispatch-IsRootSized c call s h))
