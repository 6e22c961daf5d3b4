-- ===== src/Keeper/LostKeys.antt =====
-- What xcron-keeper-rs/src/session_db.rs does with a queued session whose wallet it has lost.
use xcron_protocol.Prelude.{
  ℕ, ◌≤◌, ◌≡◌, refl, ◌∙◌, inl, inr, true, false, some, List, [], ◌∷◌, arith, Dict, lookup,
  lookup-insert, Option-cases, Bool-cases, ==_iff, ◌==◌, if◌then◌else◌,
}
use xcron_protocol.Keeper.Sessions.{
  PrivacySession, PrivacySessionManager, Sweeps, swept, contains, retry_one, push_if, retry_all,
  complete_one, complete_all, process_retry_queue,
}
use xcron_protocol.Keeper.Retries.{retry_one_frame}
use xcron_protocol.Keeper.Passes.{contains-retain}

-- The session once it counts as swept.
abbrev pub resolved : PrivacySession → PrivacySession
resolved p = record p { status = swept }

module _ (w : Sweeps) (limit a : ℕ) (lost : w.has_wallet a ≡ false) where
  -- Without its key the session is not touched, and its address leaves the queue.
  retry_one_lost :
      (b : ℕ) (ps : Dict PrivacySession) → lookup a (retry_one w limit b ps).1 ≡ lookup a ps
  unfolding retry_one
  retry_one_lost b ps = elim (Bool-cases (a == b)) [
    | inl e ↦ (let same : a ≡ b = (==_iff a b).0 e in ground (arith, lost, same))
    | inr e ↦ retry_one_frame w limit b a ps e
  ]

  retry_all_lost :
      (queue : List ℕ) (ps : Dict PrivacySession)
      → (lookup a (retry_all w limit queue ps).1 ≡ lookup a ps)
        × (contains a queue ≡ true → contains a (retry_all w limit queue ps).0 ≡ true)
  unfolding retry_all push_if retry_one
  retry_all_lost [] ps = (refl, λ i. i)
  retry_all_lost (b ∷ queue) ps = ground (
    arith,
    lost,
    ==_iff a b,
    retry_one_lost b ps,
    retry_all_lost queue (retry_one w limit b ps).1,
  )

-- The last loop marks the session.
module _ (limit a : ℕ) where
  complete_one_resolves :
      (b : ℕ) (p : PrivacySession) (ps : Dict PrivacySession)
      → p.retry_count ≤ limit
      → lookup a ps ≡ some p
      → lookup a (complete_one limit b ps) ≡ some (if a == b then resolved p else p)
  unfolding complete_one
  complete_one_resolves b p ps small e = elim (Option-cases (lookup b ps)) [
    | inl n ↦ ground (arith, n, e)
    | inr (q, n) ↦ ground (arith, n, e, small, lookup-insert b a (resolved q) ps)
  ]

  complete_all_resolves :
      (out : List ℕ) (p : PrivacySession) (ps : Dict PrivacySession)
      → p.retry_count ≤ limit
      → lookup a ps ≡ some p
      → lookup a (complete_all limit out ps) ≡ some (if contains a out then resolved p else p)
  unfolding complete_all
  complete_all_resolves [] p ps small e = e
  complete_all_resolves (b ∷ out) p ps small e =
      let q : PrivacySession = if a == b then resolved p else p in
      let qs = complete_one limit b ps in
      let rest =
        complete_all_resolves out q qs (ground (arith, small))
          (complete_one_resolves b p ps small e) in
      ground (arith, rest)

-- A queued session whose stealth wallet is not in memory, and which has retries to spare, is marked
-- as swept by the next pass and leaves the queue, with no sweep: its drip no longer counts as
-- outstanding, though it still stands at the stealth address.
pub missing_key_counts_as_swept :
    (w : Sweeps) (a : ℕ) (p : PrivacySession) (m : PrivacySessionManager)
    → w.has_wallet a ≡ false
    → contains a m.retry_queue ≡ true
    → lookup a m.sessions ≡ some p
    → p.retry_count ≤ m.max_retry_limit
    → (lookup a (process_retry_queue w m).sessions ≡ some (resolved p))
      × (contains a (process_retry_queue w m).retry_queue ≡ false)
unfolding process_retry_queue
missing_key_counts_as_swept w a p m lost queued e small =
    let r = retry_all w m.max_retry_limit m.retry_queue m.sessions in
    let stays = retry_all_lost w m.max_retry_limit a lost m.retry_queue m.sessions in
    ground (
      arith,
      queued,
      stays,
      contains-retain r.0 m.retry_queue a,
      complete_all_resolves m.max_retry_limit a r.0 p r.1 small (stays.0 ∙ e),
    )
