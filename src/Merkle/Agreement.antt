-- ===== src/Merkle/Agreement.antt =====
-- What the verifiers accept: every proof from a tree; and where they agree with each other.
use xcron_protocol.Prelude.{
  ℕ, ◌^◌, ◌<◌, ◌≡◌, refl, sym, ◌∙◌, Bool, true, false, not, Option, none, some, List, [], ◌∷◌, ◌++◌,
  arith, ==_self, be_bytes, length, length-append, length-be_bytes, if◌then◌else◌, inl, inr,
  Option-cases,
}
use xcron_protocol.Framework.{Hash}
use xcron_protocol.Common.{Buffer}
use xcron_protocol.Merkle.Proof.{
  bytes_less, parent_hash, fold_proof, verify_merkle_proof, compute_parent_hash, fold_packed,
  chain_step, compute_chain_root,
}
use xcron_protocol.Merkle.Order.{bytes_less-lt}

abbrev pub hash_bound : ℕ
hash_bound = 256 ^ 32

abbrev pub AllHashes : List Hash → Type 0
AllHashes [] = Unit
AllHashes (h ∷ hs) = (h < hash_bound) × AllHashes hs

-- A Merkle tree over leaf hashes.
pub data Tree : Type 0 where
  leaf : Hash → Tree
  node : Tree → Tree → Tree

abbrev pub AllLeaves : Tree → Type 0
AllLeaves (leaf h) = h < hash_bound
AllLeaves (node l r) = AllLeaves l × AllLeaves r

module _ (sha256 : Buffer → Hash) where
  abbrev pub root : Tree → Hash
  root (leaf h) = h
  root (node l r) = parent_hash sha256 (root l) (root r)

  -- The leaf at the end of a path (`true` is left) with the siblings on the way up.
  abbrev pub extend : Hash → Option (Hash × List Hash) → Option (Hash × List Hash)
  extend sibling none = none
  extend sibling (some (h, proof)) = some (h, proof ++ (sibling ∷ []))

  unfoldable pub proof_at : List Bool → Tree → Option (Hash × List Hash)
  proof_at [] (leaf h) = some (h, [])
  proof_at (turn ∷ path) (leaf h) = none
  proof_at [] (node l r) = none
  proof_at (true ∷ path) (node l r) = extend (root r) (proof_at path l)
  proof_at (false ∷ path) (node l r) = extend (root l) (proof_at path r)

  fold_proof-nil : (h : Hash) → fold_proof sha256 h [] ≡ h
  unfolding fold_proof
  fold_proof-nil h = refl

  fold_proof-append :
      (h sibling : Hash) (proof : List Hash)
      → fold_proof sha256 h (proof ++ (sibling ∷ []))
        ≡ parent_hash sha256 (fold_proof sha256 h proof) sibling
  unfolding fold_proof
  fold_proof-append h sibling [] = refl
  fold_proof-append h sibling (x ∷ proof) = fold_proof-append (parent_hash sha256 h x) sibling proof

  compute_chain_root-append :
      (h sibling : Hash) (siblings : List Hash)
      → compute_chain_root sha256 h (siblings ++ (sibling ∷ []))
        ≡ chain_step sha256 (compute_chain_root sha256 h siblings) sibling
  unfolding compute_chain_root
  compute_chain_root-append h sibling [] = refl
  compute_chain_root-append h sibling (x ∷ siblings) =
      compute_chain_root-append (chain_step sha256 h x) sibling siblings

  module _ (bounded : (b : Buffer) → sha256 b < hash_bound) where
    -- The order of a pair does not matter.
    parent_hash_comm :
        (a b : Hash)
        → a < hash_bound
        → b < hash_bound
        → parent_hash sha256 a b ≡ parent_hash sha256 b a
    unfolding parent_hash
    parent_hash_comm a b ha hb = ground (arith, bytes_less-lt a b ha hb, bytes_less-lt b a hb ha)

    parent_hash-compute :
        (a b : Hash)
        → a < hash_bound
        → b < hash_bound
        → parent_hash sha256 a b ≡ compute_parent_hash sha256 a b
    unfolding parent_hash compute_parent_hash
    parent_hash-compute a b ha hb = ground (arith, bytes_less-lt a b ha hb, bytes_less-lt b a hb ha)

    parent_hash-lt : (a b : Hash) → parent_hash sha256 a b < hash_bound
    unfolding parent_hash
    parent_hash-lt a b = bounded _

    -- The Scheduler and xsc-core compute the same root from a leaf and its siblings: they put a pair
    -- of hashes in order by different tests, which part only on equal hashes.
    pub fold_proof-fold_packed :
        (h : Hash) (proof : List Hash)
        → h < hash_bound
        → AllHashes proof
        → fold_proof sha256 h proof ≡ fold_packed sha256 h proof
    unfolding fold_proof fold_packed
    fold_proof-fold_packed h [] hh hp = refl
    fold_proof-fold_packed h (x ∷ proof) hh hp =
        rw (← parent_hash-compute h x hh hp.0)
          (fold_proof-fold_packed (parent_hash sha256 h x) proof (parent_hash-lt h x) hp.1)

    root-lt : (t : Tree) → AllLeaves t → root t < hash_bound
    root-lt (leaf h) b = b
    root-lt (node l r) b = parent_hash-lt (root l) (root r)

    fold_proof-proof_at :
        (path : List Bool) (t : Tree) (h : Hash) (proof : List Hash)
        → AllLeaves t
        → proof_at path t ≡ some (h, proof)
        → fold_proof sha256 h proof ≡ root t
    unfolding proof_at
    fold_proof-proof_at [] (leaf h') h proof b e = ground (arith, fold_proof-nil h')
    fold_proof-proof_at (turn ∷ path) (leaf h') h proof b e = cc
    fold_proof-proof_at [] (node l r) h proof b e = cc
    fold_proof-proof_at (true ∷ path) (node l r) h proof b e =
        elim (Option-cases (proof_at path l)) [
          | inl n ↦ ground (arith, n)
          | inr ((h', q), n) ↦
              ground
                (arith, n, fold_proof-append h' (root r) q, fold_proof-proof_at path l h' q b.0 n)
        ]
    fold_proof-proof_at (false ∷ path) (node l r) h proof b e =
        elim (Option-cases (proof_at path r)) [
          | inl n ↦ ground (arith, n)
          | inr ((h', q), n) ↦ ground (
            arith,
            n,
            fold_proof-append h' (root l) q,
            fold_proof-proof_at path r h' q b.1 n,
            parent_hash_comm (root r) (root l) (root-lt r b.1) (root-lt l b.0),
          )
        ]

    -- Every leaf of a Merkle tree has a proof that the Scheduler accepts against the tree's root: the
    -- siblings on the way up, in whatever order the children of a node stand.
    pub verify_merkle_proof-proof_at :
        (path : List Bool) (t : Tree) (h : Hash) (proof : List Hash)
        → AllLeaves t
        → proof_at path t ≡ some (h, proof)
        → verify_merkle_proof sha256 h proof (root t) ≡ true
    unfolding verify_merkle_proof
    verify_merkle_proof-proof_at path t h proof b e =
        rw (fold_proof-proof_at path t h proof b e) (==_self (root t))

  pair_length : (a b : Hash) → length (be_bytes 32 a ++ be_bytes 32 b) ≡ 64
  pair_length a b = omega (
    arith,
    length-append (be_bytes 32 a) (be_bytes 32 b),
    length-be_bytes 32 a,
    length-be_bytes 32 b,
  )

  -- What each of them hashes.
  parent_hash-input :
      (a b : Hash) → (x : Buffer) × (length x ≡ 65) × (parent_hash sha256 a b ≡ sha256 x)
  unfolding parent_hash
  parent_hash-input a b = (
    1
        ∷ (if bytes_less (be_bytes 32 a) (be_bytes 32 b)
            then be_bytes 32 a ++ be_bytes 32 b
            else be_bytes 32 b ++ be_bytes 32 a),
    ground (arith, pair_length a b, pair_length b a),
    refl,
  )

  chain_step-input :
      (a b : Hash) → (x : Buffer) × (length x ≡ 64) × (chain_step sha256 a b ≡ sha256 x)
  unfolding chain_step
  chain_step-input a b = (
    if not (bytes_less (be_bytes 32 b) (be_bytes 32 a))
        then be_bytes 32 a ++ be_bytes 32 b
        else be_bytes 32 b ++ be_bytes 32 a,
    ground (arith, pair_length a b, pair_length b a),
    refl,
  )

  -- Whenever the contract accepts the root that the keeper computes for a leaf with at least one
  -- sibling, SHA-256 has a collision between a buffer of 65 bytes and one of 64: the contract hashes
  -- each pair behind the byte 0x01, and the keeper does not.
  pub compute_chain_root-collides :
      (h sibling : Hash) (siblings : List Hash)
      → verify_merkle_proof sha256 h
          (siblings ++ (sibling ∷ []))
          (compute_chain_root sha256 h (siblings ++ (sibling ∷ [])))
        ≡ true
      → (x y : Buffer) × (length x ≡ 65) × (length y ≡ 64) × (sha256 x ≡ sha256 y)
  unfolding verify_merkle_proof
  compute_chain_root-collides h sibling siblings accepted =
      let list = siblings ++ (sibling ∷ []) in
      let agree : fold_proof sha256 h list ≡ compute_chain_root sha256 h list =
        ground (arith, accepted) in
      let (x, hx, ex) = parent_hash-input (fold_proof sha256 h siblings) sibling in
      let (y, hy, ey) = chain_step-input (compute_chain_root sha256 h siblings) sibling in
      (
        x,
        y,
        hx,
        hy,
        sym ex
            ∙ sym (fold_proof-append h sibling siblings)
            ∙ agree
            ∙ compute_chain_root-append h sibling siblings
            ∙ ey,
      )
