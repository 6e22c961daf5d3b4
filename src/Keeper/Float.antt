-- ===== src/Keeper/Float.antt =====
-- The limits that xcron-keeper-rs/src/session_db.rs puts on the sessions that are active.
use xcron_protocol.Prelude.{
  ℕ, ◌^◌, ◌≤◌, ◌<◌, ◌≡◌, refl, inl, inr, true, List, [], ◌∷◌, arith, Dict, lookup, Option-cases,
  total, total-insert,
}
use xcron_protocol.Keeper.Sessions.{
  PrivacySession, Sweeps, swept, failed_sweep, is_active, float_of, active_for, current_outstanding,
  active_user_sessions, count_retry, retry_one, retry_all, complete_one, complete_all,
}
use xcron_protocol.Keeper.Retries.{retried}

-- What the code sums up is the sum, as long as that does not wrap.
pub current_outstanding-total :
    (ps : Dict PrivacySession)
    → total float_of ps < 2 ^ 128
    → current_outstanding ps ≡ total float_of ps
unfolding current_outstanding
current_outstanding-total [] h = refl
current_outstanding-total (e ∷ ps) h =
    let rest = current_outstanding-total ps (omega arith) in omega (arith, rest)

pub active_user_sessions-total :
    (user : ℕ) (ps : Dict PrivacySession)
    → active_user_sessions user ps ≡ total (active_for user) ps
unfolding active_user_sessions
active_user_sessions-total user [] = refl
active_user_sessions-total user (e ∷ ps) = omega (arith, active_user_sessions-total user ps)

-- What the operations may do to a measure of the active sessions: it does not rise.
abbrev pub Lowers : (PrivacySession → ℕ) → Dict PrivacySession → Dict PrivacySession → Type 0
Lowers f ps qs = total f qs ≤ total f ps

-- A measure that only looks at the active sessions' users and amounts.
pub record IsActiveMeasure (f : PrivacySession → ℕ) : Type 0 where
  pub when_swept : (p : PrivacySession) → f (record p { status = swept }) ≡ 0
  pub when_retried : (p : PrivacySession) → f (retried p) ≡ f p
  pub when_failed :
      (p : PrivacySession) (n : ℕ)
      → is_active p.status ≡ true
      → f (record p { status = failed_sweep; retry_count = n }) ≡ f p

module _ (f : PrivacySession → ℕ) (law : IsActiveMeasure f) where
  retry_one-Lowers :
      (w : Sweeps) (limit a : ℕ) (ps : Dict PrivacySession) → Lowers f ps (retry_one w limit a ps).1
  unfolding retry_one count_retry
  retry_one-Lowers w limit a ps = elim (Option-cases (lookup a ps)) [
    | inl e ↦ ground (arith, e)
    | inr (p, e) ↦ ground (arith, e, law.when_retried p, total-insert f a (retried p) ps)
  ]

  pub retry_all-Lowers :
      (w : Sweeps) (limit : ℕ) (queue : List ℕ) (ps : Dict PrivacySession)
      → Lowers f ps (retry_all w limit queue ps).1
  unfolding retry_all
  retry_all-Lowers w limit [] ps = omega arith
  retry_all-Lowers w limit (a ∷ queue) ps = omega (
    arith,
    retry_one-Lowers w limit a ps,
    retry_all-Lowers w limit queue (retry_one w limit a ps).1,
  )

  complete_one-Lowers :
      (limit a : ℕ) (ps : Dict PrivacySession) → Lowers f ps (complete_one limit a ps)
  unfolding complete_one
  complete_one-Lowers limit a ps = elim (Option-cases (lookup a ps)) [
    | inl e ↦ ground (arith, e)
    | inr (p, e) ↦
        ground (arith, e, law.when_swept p, total-insert f a (record p { status = swept }) ps)
  ]

  pub complete_all-Lowers :
      (limit : ℕ) (out : List ℕ) (ps : Dict PrivacySession)
      → Lowers f ps (complete_all limit out ps)
  unfolding complete_all
  complete_all-Lowers limit [] ps = omega arith
  complete_all-Lowers limit (a ∷ out) ps = omega (
    arith,
    complete_one-Lowers limit a ps,
    complete_all-Lowers limit out (complete_one limit a ps),
  )

pub float-IsActiveMeasure : IsActiveMeasure float_of
float-IsActiveMeasure = record {
  when_swept = λ p. refl;
  when_retried = λ p. refl;
  when_failed = λ p n h. ground (arith, h);
}

pub user-IsActiveMeasure : (user : ℕ) → IsActiveMeasure (active_for user)
user-IsActiveMeasure user = record {
  when_swept = λ p. ground arith;
  when_retried = λ p. refl;
  when_failed = λ p n h. ground (arith, h);
}
