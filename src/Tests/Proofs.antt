-- ===== src/Tests/Proofs.antt =====
-- The theorems on Merkle proofs at concrete trees.
use xcron_protocol.Prelude.{◌<◌, ◌≡◌, refl, [], ◌∷◌, arith, length, be_bytes}
use xcron_protocol.Framework.{Hash}
use xcron_protocol.Common.{Buffer}
use xcron_protocol.Merkle.Proof.{
  fold_proof, verify_merkle_proof, compute_chain_root, chain_step, parent_hash, bytes_less,
}
use xcron_protocol.Merkle.Agreement.{Tree, hash_bound, compute_chain_root-collides}

-- A hash that is 7 on every buffer of two bytes or more.
abbrev second : Buffer → Hash
second [] = 0
second (x ∷ []) = 0
second (x ∷ y ∷ b) = 7

second_bounded : (b : Buffer) → second b < hash_bound
second_bounded [] = omega arith
second_bounded (x ∷ []) = omega arith
second_bounded (x ∷ y ∷ b) = omega arith

abbrev three_leaves : Tree
three_leaves = Tree.node (Tree.node (Tree.leaf 11) (Tree.leaf 12)) (Tree.leaf 13)

compute_chain_root-collides_example :
    (x y : Buffer) × (length x ≡ 65) × (length y ≡ 64) × (second x ≡ second y)
unfolding verify_merkle_proof fold_proof compute_chain_root chain_step parent_hash bytes_less
    be_bytes
compute_chain_root-collides_example = compute_chain_root-collides second 11 12 [] refl
