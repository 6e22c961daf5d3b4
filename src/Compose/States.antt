-- ===== src/Compose/States.antt =====
-- Compressed tasks: the Scheduler's `executeCompressedTask` over the root that contracts/xsc-core keeps.
use xcron_protocol.Prelude.{
  ◌≤◌, ◌<◌, ◌≡◌, refl, Bool, true, false, some, List, arith, read_or, be_bytes, length, AllBytes,
  if◌then◌else◌, Bool-cases, inl, inr,
}
use xcron_protocol.Framework.{
  err, Result-cases, Address, Hash, Ctx, SetMapper, SetItems, contains, is_ok, is_zero,
  invalid_state_proof,
}
use xcron_protocol.Common.{Buffer, Task}
use xcron_protocol.Merkle.Proof.{verify_merkle_proof}
use xcron_protocol.Merkle.Agreement.{
  hash_bound, AllHashes, Tree, AllLeaves, root, proof_at, verify_merkle_proof-proof_at,
}
use xcron_protocol.Scheduler.Environment.{Env, seal}
use xcron_protocol.Scheduler.State.{State}
use xcron_protocol.Scheduler.Execution.{execute_compressed_task, dispatch_task_execution}
use xcron_protocol.Scheduler.Lifecycle.Compressed.{fresh_entry}
use xcron_protocol.XscCore.Contract as Xsc
use xcron_protocol.XscCore.Unpacking.{IsUnderRoot, verify_proof-proves}
use xcron_protocol.XscCore.Packing.{pack, verify_proof-verify_merkle_proof}
use xcron_protocol.Xwap.State as Xwap
use xcron_protocol.Compose.Links.{IsFramework, linked}

module _ {S V : Type 0} ⦃sets : SetMapper S⦄ where
  -- The call passes the checks before the proof.
  pub record IsAdmitted (c : Ctx) (hash : Hash) (xsc : Address) (s : State S V) : Type 0 where
    pub no_payment : c.egld ≡ 0
    pub running : s.paused ≡ false
    pub registered : contains c.caller s.whitelisted_keepers ≡ true
    pub unused : read_or false hash s.used_compressed_tasks ≡ false
    pub configured : s.xsc_address ≡ some xsc
    pub real : is_zero xsc ≡ false

module _ {S V W : Type 0} ⦃sets : SetMapper S⦄ ⦃wsets : SetMapper W⦄ ⦃its : SetItems W⦄ where
  -- `executeCompressedTask` succeeds only if the state compression contract that answers its query is
  -- not paused, and if the buffer that the keeper passes, any bytes at all, is a packed list of at most
  -- 32 siblings that prove the task's seal to be under the root which that contract stores.
  pub execute_compressed_task_proved :
      (env : Env) (fw : IsFramework env) (x : Xsc.State) (w : Xwap.State W) (c : Ctx) (task : Task)
      (packed : Buffer) (s : State S V)
      → AllBytes packed
      → is_ok (execute_compressed_task (linked env x c w) c task packed s) ≡ true
      → (siblings : List Hash) × (r : Hash) × IsUnderRoot env.sha256
          (seal env task)
          packed
          x
          siblings
          r
  unfolding execute_compressed_task
  execute_compressed_task_proved env fw x w c task packed s bytes started =
      let hash = seal env task in
      elim (Result-cases (Xsc.verify_proof env.sha256 (be_bytes 32 hash) packed x)) [
        | inl (error, e) ↦ ground (arith, started, e)
        | inr (false, e) ↦ ground (arith, started, e, fw.decodes false)
        | inr (true, e) ↦
            verify_proof-proves env.sha256 fw.bounded hash packed x (fw.bounded _) bytes e
      ]

  module _ (env : Env) (fw : IsFramework env) (x : Xsc.State) (w : Xwap.State W) (c : Ctx)
      (task : Task) (proof : List Hash) (r : Hash) (s : State S V)
      (bounds : (r < hash_bound) × AllHashes proof × (length proof ≤ 32))
      (posted : (x.is_paused ≡ false) × (x.merkle_root ≡ be_bytes 32 r)) where
    -- The call is decided by whether the task's seal is proved to be under the root that is posted.
    execute_compressed_task_decided :
        (xsc : Address)
        → IsAdmitted c (seal env task) xsc s
        → execute_compressed_task (linked env x c w) c task (pack proof) s ≡ (
            if verify_merkle_proof env.sha256 (seal env task) proof r
            then dispatch_task_execution
                (linked env x c w)
                c
                (seal env task)
                task
                c.caller
                (fresh_entry task)
                s
            else err invalid_state_proof)
    unfolding execute_compressed_task
    execute_compressed_task_decided xsc h =
        let answer =
          verify_proof-verify_merkle_proof env.sha256 fw.bounded (seal env task) r proof x
            (fw.bounded _, bounds.0, bounds.1) bounds.2 posted in
        let found = verify_merkle_proof env.sha256 (seal env task) proof r in
        elim (Bool-cases found) [
          | inl e ↦
              rw
                (
                  h.no_payment,
                  h.running,
                  h.registered,
                  h.unused,
                  h.configured,
                  h.real,
                  answer,
                  fw.decodes found,
                  e,
                )
                refl
          | inr e ↦
              rw
                (
                  h.no_payment,
                  h.running,
                  h.registered,
                  h.unused,
                  h.configured,
                  h.real,
                  answer,
                  fw.decodes found,
                  e,
                )
                refl
        ]

    -- A task of a tree gets past the proof, if the tree's root is the one that the state compression
    -- contract stores, this contract is not paused, at most 32 siblings are on the way up from the
    -- task's seal, and the call passes the checks before the proof: no payment, a Scheduler that is not
    -- paused and has the contract's address, a registered keeper, and a task that is not marked as used.
    -- With these siblings, packed, the call then does what the dispatch of the task does.
    pub execute_compressed_task_complete :
        (xsc : Address) (t : Tree) (path : List Bool)
        → IsAdmitted c (seal env task) xsc s
        → AllLeaves t
        → proof_at env.sha256 path t ≡ some (seal env task, proof)
        → root env.sha256 t ≡ r
        → execute_compressed_task (linked env x c w) c task (pack proof) s
          ≡ dispatch_task_execution
              (linked env x c w)
              c
              (seal env task)
              task
              c.caller
              (fresh_entry task)
              s
    execute_compressed_task_complete xsc t path h leaves at_path same =
        let found : verify_merkle_proof env.sha256 (seal env task) proof r ≡ true = rw (← same) (
          verify_merkle_proof-proof_at env.sha256 fw.bounded path t (seal env task) proof leaves
            at_path) in
        rw (execute_compressed_task_decided xsc h, found) refl
