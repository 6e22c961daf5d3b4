-- ===== src/Merkle/Proof.antt =====
-- The three verifiers, with SHA-256 as a parameter. A hash is a 256-bit number; the code compares and
-- joins the 32 bytes of it, the most significant first.
use xcron_protocol.Prelude.{
  ◌++◌, Bool, true, false, not, List, [], ◌∷◌, ltb, ◌==◌, if◌then◌else◌, be_bytes,
}
use xcron_protocol.Framework.{Hash}
use xcron_protocol.Common.{Buffer}

-- The loop over the bytes: whether the first of two is smaller at the first place of difference.
unfoldable pub bytes_less : Buffer → Buffer → Bool
bytes_less [] ys = false
bytes_less (x ∷ xs) [] = false
bytes_less (x ∷ xs) (y ∷ ys) =
    let rest = bytes_less xs ys in if ltb x y then true else (if ltb y x then false else rest)

module _ (sha256 : Buffer → Hash) where
  -- One step of `verify_merkle_proof`: the pair in ascending order, behind the prefix 0x01.
  unfoldable pub parent_hash : Hash → Hash → Hash
  parent_hash current sibling =
      let a = be_bytes 32 current in
      let b = be_bytes 32 sibling in sha256 (1 ∷ (if bytes_less a b then a ++ b else b ++ a))

  unfoldable pub fold_proof : Hash → List Hash → Hash
  fold_proof current [] = current
  fold_proof current (sibling ∷ proof) = fold_proof (parent_hash current sibling) proof

  unfoldable pub verify_merkle_proof : Hash → List Hash → Hash → Bool
  verify_merkle_proof leaf proof root = fold_proof leaf proof == root

  -- `compute_parent_hash` of xsc-core, where `buf_compare(a, b) <= 0` puts `a` first.
  unfoldable pub compute_parent_hash : Hash → Hash → Hash
  compute_parent_hash current sibling =
      let a = be_bytes 32 current in
      let b = be_bytes 32 sibling in sha256 (1 ∷ (if not (bytes_less b a) then a ++ b else b ++ a))

  -- The loop of `verify_proof` over the siblings that the packed proof holds.
  unfoldable pub fold_packed : Hash → List Hash → Hash
  fold_packed current [] = current
  fold_packed current (sibling ∷ proof) = fold_packed (compute_parent_hash current sibling) proof

  -- `compute_chain_root` of the keeper, which joins the pair with no prefix.
  unfoldable pub chain_step : Hash → Hash → Hash
  chain_step current sibling =
      let a = be_bytes 32 current in
      let b = be_bytes 32 sibling in sha256 (if not (bytes_less b a) then a ++ b else b ++ a)

  unfoldable pub compute_chain_root : Hash → List Hash → Hash
  compute_chain_root current [] = current
  compute_chain_root current (sibling ∷ siblings) =
      compute_chain_root (chain_step current sibling) siblings
