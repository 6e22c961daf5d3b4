-- ===== src/Keeper/Limits.antt =====
-- The limits of xcron-keeper-rs/src/session_db.rs along every sequence of its operations.
use xcron_protocol.Prelude.{
  ℕ, ◌+◌, ◌^◌, ◌≤◌, ◌<◌, ◌≡◌, refl, inl, inr, true, some, arith, lookup, Option-cases, total,
  total-insert,
}
use xcron_protocol.Prelude.Fallible.{done, IsDone}
use xcron_protocol.Keeper.Sessions.{
  PrivacySession, PrivacySessionManager, Sweeps, swept, dripped, failed_sweep, is_active, float_of,
  active_for, authorize_session, complete_session, register_failed_sweep, retry_all,
  process_retry_queue, wrap_u32,
}
use xcron_protocol.Keeper.Float.{
  IsActiveMeasure, Lowers, retry_all-Lowers, complete_all-Lowers, float-IsActiveMeasure,
  user-IsActiveMeasure, current_outstanding-total, active_user_sessions-total,
}

-- The active sessions are within both limits.
pub record IsLimited (m : PrivacySessionManager) : Type 0 where
  pub float_fits : total float_of m.sessions ≤ m.global_float_limit
  pub limit_fits : m.global_float_limit < 2 ^ 128
  pub users_fit : (user : ℕ) → total (active_for user) m.sessions ≤ m.max_active_drips_per_user

-- Any order of the operations. A drip is an amount that does not wrap `u128` with the limit, and a
-- sweep fails only for a session that is active.
pub data Step : PrivacySessionManager → PrivacySessionManager → Type 0 where
  authorize :
      (now user stealth amount : ℕ) (m m' : PrivacySessionManager)
      → m.global_float_limit + amount < 2 ^ 128
      → authorize_session now user stealth amount m ≡ done m'
      → Step m m'
  complete :
      (stealth : ℕ) (m m' : PrivacySessionManager)
      → complete_session stealth m ≡ done m'
      → Step m m'
  fail :
      (stealth : ℕ) (p : PrivacySession) (m m' : PrivacySessionManager)
      → lookup stealth m.sessions ≡ some p
      → is_active p.status ≡ true
      → register_failed_sweep stealth m ≡ done m'
      → Step m m'
  pass : (w : Sweeps) (m : PrivacySessionManager) → Step m (process_retry_queue w m)

pub data Reach : PrivacySessionManager → PrivacySessionManager → Type 0 where
  here : (m : PrivacySessionManager) → Reach m m
  next : (m m' m'' : PrivacySessionManager) → Step m m' → Reach m' m'' → Reach m m''

-- The limits stay, and no measure of the active sessions rises.
record IsLowered (m m' : PrivacySessionManager) : Type 0 where
  same_float : m'.global_float_limit ≡ m.global_float_limit
  same_users : m'.max_active_drips_per_user ≡ m.max_active_drips_per_user
  lowers : (f : PrivacySession → ℕ) → IsActiveMeasure f → Lowers f m.sessions m'.sessions

lowered-IsLimited : (m m' : PrivacySessionManager) → IsLimited m → IsLowered m m' → IsLimited m'
lowered-IsLimited m m' h l = record {
  float_fits = omega (arith, h.float_fits, l.same_float, l.lowers float_of float-IsActiveMeasure);
  limit_fits = omega (arith, h.limit_fits, l.same_float);
  users_fit = λ user. omega (
    arith,
    h.users_fit user,
    l.same_users,
    l.lowers (active_for user) (user-IsActiveMeasure user),
  );
}

complete-IsLowered :
    (stealth : ℕ) (m m' : PrivacySessionManager)
    → complete_session stealth m ≡ done m'
    → IsLowered m m'
unfolding complete_session
complete-IsLowered stealth m m' d = elim (Option-cases (lookup stealth m.sessions)) [
  | inl e ↦ ground (arith, e, d)
  | inr (p, e) ↦ record {
    same_float = ground (arith, e, d);
    same_users = ground (arith, e, d);
    lowers = λ f law. ground (
      arith,
      e,
      d,
      law.when_swept p,
      total-insert f stealth (record p { status = swept }) m.sessions,
    );
  }
]

-- The session as a failed sweep leaves it.
abbrev failed_once : PrivacySession → PrivacySession
failed_once p = record p { status = failed_sweep; retry_count = wrap_u32 (p.retry_count + 1) }

fail-IsLowered :
    (stealth : ℕ) (p : PrivacySession) (m m' : PrivacySessionManager)
    → lookup stealth m.sessions ≡ some p
    → is_active p.status ≡ true
    → register_failed_sweep stealth m ≡ done m'
    → IsLowered m m'
unfolding register_failed_sweep
fail-IsLowered stealth p m m' e a d = record {
  same_float = ground (arith, e, d);
  same_users = ground (arith, e, d);
  lowers = λ f law. ground (
    arith,
    e,
    d,
    law.when_failed p (wrap_u32 (p.retry_count + 1)) a,
    total-insert f stealth (failed_once p) m.sessions,
  );
}

pass-IsLowered : (w : Sweeps) (m : PrivacySessionManager) → IsLowered m (process_retry_queue w m)
unfolding process_retry_queue
pass-IsLowered w m =
    let r = retry_all w m.max_retry_limit m.retry_queue m.sessions in
    record {
      same_float = refl;
      same_users = refl;
      lowers = λ f law. omega (
        arith,
        retry_all-Lowers f law w m.max_retry_limit m.retry_queue m.sessions,
        complete_all-Lowers f law m.max_retry_limit r.0 r.1,
      );
    }

-- A session that is authorised fits.
authorize-IsLimited :
    (now user stealth amount : ℕ) (m m' : PrivacySessionManager)
    → m.global_float_limit + amount < 2 ^ 128
    → authorize_session now user stealth amount m ≡ done m'
    → IsLimited m
    → IsLimited m'
unfolding authorize_session
authorize-IsLimited now user stealth amount m m' small d h =
    let p : PrivacySession = record {
      stealth_address = stealth;
      user_address = user;
      amount_dripped = amount;
      status = dripped;
      retry_count = 0;
      created_at = now;
    } in
    let sum = current_outstanding-total m.sessions (omega (arith, h.float_fits, h.limit_fits)) in
    record {
      float_fits =
          ground (arith, d, sum, small, h.float_fits, total-insert float_of stealth p m.sessions);
      limit_fits = ground (arith, d, h.limit_fits);
      users_fit = λ v. ground (
        arith,
        d,
        h.users_fit v,
        active_user_sessions-total user m.sessions,
        total-insert (active_for v) stealth p m.sessions,
      );
    }

Step-IsLimited : {m m' : PrivacySessionManager} → Step m m' → IsLimited m → IsLimited m'
Step-IsLimited (authorize now user stealth amount m m' small d) h =
    authorize-IsLimited now user stealth amount m m' small d h
Step-IsLimited (complete stealth m m' d) h =
    lowered-IsLimited m m' h (complete-IsLowered stealth m m' d)
Step-IsLimited (fail stealth p m m' e a d) h =
    lowered-IsLimited m m' h (fail-IsLowered stealth p m m' e a d)
Step-IsLimited (pass w m) h = lowered-IsLimited m (process_retry_queue w m) h (pass-IsLowered w m)

-- In every state that the session manager reaches from one within its limits, whatever the order of
-- authorisations, completions, failed sweeps of active sessions and passes over the retry queue, the
-- outstanding float stays at or below the global limit, and no user has more active sessions than
-- allowed.
pub Reach-IsLimited : {m m' : PrivacySessionManager} → Reach m m' → IsLimited m → IsLimited m'
Reach-IsLimited (here m) h = h
Reach-IsLimited (next m m' m'' st r) h = Reach-IsLimited r (Step-IsLimited st h)

-- The code does not look at the status of a session whose sweep fails: one that is swept becomes
-- active again, and its drip is back in the outstanding float, which no limit is checked for.
pub register_failed_sweep_reactivates :
    (stealth : ℕ) (p : PrivacySession) (m : PrivacySessionManager)
    → lookup stealth m.sessions ≡ some p
    → p.status ≡ swept
    → IsDone
        (λ m'. total float_of m'.sessions ≡ total float_of m.sessions + p.amount_dripped)
        (register_failed_sweep stealth m)
unfolding register_failed_sweep
register_failed_sweep_reactivates stealth p m e a =
    ground (arith, e, a, total-insert float_of stealth (failed_once p) m.sessions)
