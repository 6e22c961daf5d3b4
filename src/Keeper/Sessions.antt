-- ===== src/Keeper/Sessions.antt =====
-- xcron-keeper-rs/src/session_db.rs: the sessions of stealth addresses. A lock that another thread has
-- poisoned by a panic is not modelled. Addresses, which the code keeps as text and only compares, are
-- numbers; `now` is the system's time in seconds. What the chain answers to a sweep is a parameter.
use xcron_protocol.Prelude.{
  ℕ, ◌+◌, ◌%◌, ◌^◌, Bool, true, false, not, ◌&&◌, ◌||◌, none, some, List, [], ◌∷◌, ◌++◌, ltb, leb,
  ◌==◌, if◌then◌else◌, Dict, lookup, insert,
}
use xcron_protocol.Prelude.Fallible.{Fallible, failed, done, check, ◌>>◌}

pub data SessionStatus : Type 0 where
  dripped swept failed_sweep : SessionStatus

pub record PrivacySession : Type 0 where
  pub stealth_address : ℕ
  pub user_address : ℕ
  pub amount_dripped : ℕ
  pub status : SessionStatus
  pub retry_count : ℕ
  pub created_at : ℕ

pub record PrivacySessionManager : Type 0 where
  pub sessions : Dict PrivacySession
  pub global_float_limit : ℕ
  pub max_active_drips_per_user : ℕ
  pub retry_queue : List ℕ
  pub max_retry_limit : ℕ

pub data SessionError : Type 0 where
  float_limit_reached user_limit_reached session_not_found : SessionError

-- `PrivacySessionManager::new`
unfoldable pub new_manager : ℕ → ℕ → PrivacySessionManager
new_manager float_limit user_limit = record {
  sessions = [];
  global_float_limit = float_limit;
  max_active_drips_per_user = user_limit;
  retry_queue = [];
  max_retry_limit = 5;
}

abbrev pub is_active : SessionStatus → Bool
is_active dripped = true
is_active swept = false
is_active failed_sweep = true

-- What a session adds to the outstanding float, and to the count of its user's active sessions.
abbrev pub float_of : PrivacySession → ℕ
float_of p = if is_active p.status then p.amount_dripped else 0

abbrev pub active_for : ℕ → PrivacySession → ℕ
active_for user p = if (p.user_address == user) && is_active p.status then 1 else 0

-- `u128` and `u32` wrap in a release build.
abbrev pub u128 : ℕ → ℕ
u128 n = n % 2 ^ 128

abbrev pub wrap_u32 : ℕ → ℕ
wrap_u32 n = n % 2 ^ 32

-- `current_outstanding`
unfoldable pub current_outstanding : Dict PrivacySession → ℕ
current_outstanding [] = 0
current_outstanding ((k, p) ∷ ps) = u128 (float_of p + current_outstanding ps)

-- `active_user_sessions`
unfoldable pub active_user_sessions : ℕ → Dict PrivacySession → ℕ
active_user_sessions user [] = 0
active_user_sessions user ((k, p) ∷ ps) = active_for user p + active_user_sessions user ps

unfoldable pub authorize_session :
    ℕ → ℕ → ℕ → ℕ → PrivacySessionManager → Fallible SessionError PrivacySessionManager
authorize_session now user stealth amount m = do
  check (leb (u128 (current_outstanding m.sessions + amount)) m.global_float_limit)
      float_limit_reached
  check (ltb (active_user_sessions user m.sessions) m.max_active_drips_per_user) user_limit_reached
  done (record m {
    sessions =
        insert stealth
          (record {
            stealth_address = stealth;
            user_address = user;
            amount_dripped = amount;
            status = dripped;
            retry_count = 0;
            created_at = now;
          })
          m.sessions;
  })

unfoldable pub complete_session :
    ℕ → PrivacySessionManager → Fallible SessionError PrivacySessionManager
complete_session stealth m = elim (lookup stealth m.sessions) [
  | none ↦ failed session_not_found
  | some p ↦ done (record m { sessions = insert stealth (record p { status = swept }) m.sessions })
]

abbrev pub contains : ℕ → List ℕ → Bool
contains a [] = false
contains a (b ∷ bs) = (a == b) || contains a bs

-- The session is queued once, unless its retries are spent.
unfoldable pub enqueue : ℕ → ℕ → ℕ → List ℕ → List ℕ
enqueue stealth count limit queue =
    if leb count limit && not (contains stealth queue) then queue ++ (stealth ∷ []) else queue

unfoldable pub register_failed_sweep :
    ℕ → PrivacySessionManager → Fallible SessionError PrivacySessionManager
unfolding enqueue
register_failed_sweep stealth m = elim (lookup stealth m.sessions) [
  | none ↦ failed session_not_found
  | some p ↦
      (let count = wrap_u32 (p.retry_count + 1) in
        done (record m {
          sessions =
              insert stealth (record p { status = failed_sweep; retry_count = count }) m.sessions;
          retry_queue = enqueue stealth count m.max_retry_limit m.retry_queue;
        }))
]

-- What a pass over the queue meets: the stealth wallets whose keys are in memory, and whether the
-- sweep of each succeeds.
pub record Sweeps : Type 0 where
  pub has_wallet : ℕ → Bool
  pub sweeps : ℕ → Bool

-- One more retry has failed: the sessions, and whether the address is discarded.
unfoldable pub count_retry : ℕ → ℕ → Dict PrivacySession → Bool × Dict PrivacySession
count_retry limit a ps = elim (lookup a ps) [
  | none ↦ (false, ps)
  | some p ↦
      (let count = wrap_u32 (p.retry_count + 1) in
        (ltb limit count, insert a (record p { retry_count = count }) ps))
]

-- One address of the queue: whether it is pushed to `successfully_swept`, and the sessions.
unfoldable pub retry_one : Sweeps → ℕ → ℕ → Dict PrivacySession → Bool × Dict PrivacySession
unfolding count_retry
retry_one w limit a ps =
    if w.has_wallet a && not (w.sweeps a) then count_retry limit a ps else (true, ps)

unfoldable pub push_if : ℕ → Bool × Dict PrivacySession → List ℕ → List ℕ
push_if a r bs = if r.0 then a ∷ bs else bs

-- The loop over the queue: `successfully_swept`, and the sessions after it.
unfoldable pub retry_all : Sweeps → ℕ → List ℕ → Dict PrivacySession → List ℕ × Dict PrivacySession
unfolding retry_one push_if
retry_all w limit [] ps = ([], ps)
retry_all w limit (a ∷ queue) ps =
    let r = retry_one w limit a ps in
    let rest = retry_all w limit queue r.1 in (push_if a r rest.0, rest.1)

-- `queue.retain(|addr| !successfully_swept.contains(addr))`
unfoldable pub retain : List ℕ → List ℕ → List ℕ
retain out [] = []
retain out (a ∷ queue) = let rest = retain out queue in if contains a out then rest else a ∷ rest

-- The last loop: what left the queue with retries to spare is marked as swept.
unfoldable pub complete_one : ℕ → ℕ → Dict PrivacySession → Dict PrivacySession
complete_one limit a ps = elim (lookup a ps) [
  | none ↦ ps
  | some p ↦ if leb p.retry_count limit then insert a (record p { status = swept }) ps else ps
]

unfoldable pub complete_all : ℕ → List ℕ → Dict PrivacySession → Dict PrivacySession
unfolding complete_one
complete_all limit [] ps = ps
complete_all limit (a ∷ out) ps = complete_all limit out (complete_one limit a ps)

-- An empty queue returns at once, which is what the loops do.
unfoldable pub process_retry_queue : Sweeps → PrivacySessionManager → PrivacySessionManager
unfolding retain
process_retry_queue w m =
    let r = retry_all w m.max_retry_limit m.retry_queue m.sessions in
    record m {
      retry_queue = retain r.0 m.retry_queue;
      sessions = complete_all m.max_retry_limit r.0 r.1;
    }

unfoldable pub active_session_count : Dict PrivacySession → ℕ
active_session_count [] = 0
active_session_count ((k, p) ∷ ps) = (if is_active p.status then 1 else 0) + active_session_count ps
