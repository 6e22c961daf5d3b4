-- ===== src/XscCore/Contract.antt =====
-- contracts/xsc-core/src/xsc_core.rs. Buffers are bytes; the hashes inside `verify_proof` are the
-- numbers that their 32 bytes stand for.
use xcron_protocol.Prelude.{
  ℕ, zero, suc, ◌+◌, ◌*◌, ◌/◌, ◌%◌, ◌^◌, Bool, false, not, Option, some, List, [], ◌∷◌, leb, ◌==◌,
  length, bytes_eq, be_bytes,
}
use xcron_protocol.Framework.{
  Result, ok, after, ◌>>=◌, ◌>>◌, guard, or_abort, Address, Hash, Ctx, require_owner, u64,
  decode_error, protocol_paused, unauthorized_keeper, invalid_root_length, invalid_leaf_length,
  invalid_proof_length, proof_too_deep,
}
use xcron_protocol.Common.{Buffer}
use xcron_protocol.Merkle.Proof.{compute_parent_hash}

pub record State : Type 0 where
  pub merkle_root : Buffer
  pub authorized_keeper : Option Address
  pub root_nonce : ℕ
  pub is_paused : Bool

unfoldable init : Address → State → State
init authorized_keeper s = record s {
  authorized_keeper = some authorized_keeper;
  root_nonce = 0;
  is_paused = false;
}

unfoldable pub upgrade : Address → State → State
upgrade authorized_keeper s = record s { authorized_keeper = some authorized_keeper }

unfoldable pub set_paused : Ctx → Bool → State → Result State
set_paused c paused s = do require_owner c; ok (record s { is_paused = paused })

unfoldable pub set_authorized_keeper : Ctx → Address → State → Result State
set_authorized_keeper c new_keeper s = do
  require_owner c
  ok (record s { authorized_keeper = some new_keeper })

abbrev require_not_paused : State → Result (Unit {0})
require_not_paused s = guard (not s.is_paused) protocol_paused

unfoldable pub update_root : Ctx → Buffer → State → Result State
update_root c new_root s = do
  require_not_paused s
  keeper ← or_abort s.authorized_keeper decode_error
  guard (c.caller == keeper) unauthorized_keeper
  guard (length new_root == 32) invalid_root_length
  ok (record s { root_nonce = u64 (s.root_nonce + 1); merkle_root = new_root })

-- The number that bytes stand for, the most significant first.
unfoldable pub be_number : Buffer → ℕ
be_number [] = 0
be_number (x ∷ xs) = x * 256 ^ length xs + be_number xs

abbrev pub take : ℕ → Buffer → Buffer
take zero xs = []
take (suc n) [] = []
take (suc n) (x ∷ xs) = x ∷ take n xs

abbrev pub drop : ℕ → Buffer → Buffer
drop zero xs = xs
drop (suc n) [] = []
drop (suc n) (x ∷ xs) = drop n xs

-- `copy_slice(offset, 32)`
abbrev pub slice : ℕ → Buffer → Buffer
slice offset b = take 32 (drop offset b)

module _ (sha256 : Buffer → Hash) where
  -- The loop over the next `n` slices.
  unfoldable pub fold_slices : ℕ → ℕ → Hash → Buffer → Hash
  fold_slices zero offset computed packed = computed
  fold_slices (suc n) offset computed packed =
      fold_slices n (offset + 32)
        (compute_parent_hash sha256 computed (be_number (slice offset packed))) packed

  -- The offset grows by 32 until it reaches the length, which is a multiple of it.
  unfoldable pub verify_proof : Buffer → Buffer → State → Result Bool
  unfolding fold_slices
  verify_proof leaf packed_proof s = do
    require_not_paused s
    guard (length leaf == 32) invalid_leaf_length
    guard (length packed_proof % 32 == 0) invalid_proof_length
    guard (leb (length packed_proof) 1024) proof_too_deep
    ok (
        bytes_eq
          (be_bytes 32 (fold_slices (length packed_proof / 32) 0 (be_number leaf) packed_proof))
          s.merkle_root)

pub data Call : Type 0 where
  update_call : (new_root : Buffer) → Call
  pause_call : (paused : Bool) → Call
  keeper_call upgrade_call : (keeper : Address) → Call

unfoldable pub dispatch : Ctx → Call → State → Result State
dispatch c (update_call new_root) s = update_root c new_root s
dispatch c (pause_call paused) s = set_paused c paused s
dispatch c (keeper_call keeper) s = set_authorized_keeper c keeper s
dispatch c (upgrade_call keeper) s = ok (upgrade keeper s)

unfoldable pub run : List (Ctx × Call) → State → State
run [] s = s
run ((c, call) ∷ calls) s = run calls (after s (dispatch c call s))
