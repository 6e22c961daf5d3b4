-- ===== src/Keeper/Passes.antt =====
-- The retry queue of xcron-keeper-rs/src/session_db.rs empties.
use xcron_protocol.Prelude.{
  ℕ, suc, ◌+◌, ◌^◌, ◌≤◌, ◌<◌, ◌≡◌, refl, inl, inr, true, false, ◌&&◌, not, List, [], ◌∷◌, arith,
  Bool-cases, length, ==_iff, ==_self, ◌==◌,
}
use xcron_protocol.Keeper.Sessions.{
  PrivacySessionManager, Sweeps, contains, retry_all, retain, process_retry_queue,
}
use xcron_protocol.Keeper.Retries.{
  has_session, count_of, retry_all-Counted, retry_all_kept, complete_all-Counted,
}

-- What is retained was in the queue and is not among what leaves it.
pub contains-retain :
    (out queue : List ℕ) (b : ℕ)
    → contains b (retain out queue) ≡ (contains b queue && not (contains b out))
unfolding retain
contains-retain out [] b = refl
contains-retain out (a ∷ queue) b = elim (Bool-cases (b == a)) [
  | inl e ↦
      (let same : b ≡ a = (==_iff b a).0 e in ground (arith, e, same, contains-retain out queue b))
  | inr e ↦ ground (arith, e, contains-retain out queue b)
]

length-retain-le : (out queue : List ℕ) → length (retain out queue) ≤ length queue
unfolding retain
length-retain-le out [] = omega arith
length-retain-le out (a ∷ queue) = ground (arith, length-retain-le out queue)

-- Each queued address has a session with at least `k` retries, and whose count has room to grow by
-- one for each address of the queue.
pub record HasRetried (k : ℕ) (m : PrivacySessionManager) : Type 0 where
  pub known : (b : ℕ) → contains b m.retry_queue ≡ true → has_session b m.sessions ≡ true
  pub retried_enough : (b : ℕ) → contains b m.retry_queue ≡ true → k ≤ count_of b m.sessions
  pub spared :
      0 < k → (b : ℕ) → contains b m.retry_queue ≡ true → count_of b m.sessions ≤ m.max_retry_limit
  pub room :
      (b : ℕ)
      → contains b m.retry_queue ≡ true
      → count_of b m.sessions + length m.retry_queue < 2 ^ 32

pass_small :
    (w : Sweeps) (m : PrivacySessionManager)
    → m.max_retry_limit + length m.retry_queue < 2 ^ 32
    → (process_retry_queue w m).max_retry_limit + length (process_retry_queue w m).retry_queue
      < 2 ^ 32
unfolding process_retry_queue
pass_small w m h = omega (
  arith,
  length-retain-le (retry_all w m.max_retry_limit m.retry_queue m.sessions).0 m.retry_queue,
)

pass_limit :
    (w : Sweeps) (m : PrivacySessionManager) (k n : ℕ)
    → m.max_retry_limit < suc k + n
    → (process_retry_queue w m).max_retry_limit < suc k + n
unfolding process_retry_queue
pass_limit w m k n h = h

-- A pass adds a retry to each session that stays queued, whatever wallets are there and whichever
-- sweeps succeed.
module _ (w : Sweeps) (k : ℕ) (m : PrivacySessionManager)
    (small : m.max_retry_limit + length m.retry_queue < 2 ^ 32) (h : HasRetried k m) where
  pass_one :
      (b : ℕ)
      → contains b (process_retry_queue w m).retry_queue ≡ true
      → (has_session b (process_retry_queue w m).sessions ≡ true)
        × (suc k ≤ count_of b (process_retry_queue w m).sessions)
        × (count_of b (process_retry_queue w m).sessions ≤ m.max_retry_limit)
  unfolding process_retry_queue
  pass_one b i =
      let r = retry_all w m.max_retry_limit m.retry_queue m.sessions in
      let left = contains-retain r.0 m.retry_queue b in
      let queued : contains b m.retry_queue ≡ true = ground (arith, i, left) in
      let stays : contains b r.0 ≡ false = ground (arith, i, left) in
      let kept =
        retry_all_kept w m.max_retry_limit m.retry_queue b m.sessions (h.known b queued)
          (h.room b queued) queued stays in
      let counted =
        retry_all-Counted w m.max_retry_limit m.retry_queue b m.sessions (h.known b queued)
          (h.room b queued) in
      let same = complete_all-Counted m.max_retry_limit r.0 b r.1 in
      ground (arith, kept, counted, same, h.retried_enough b queued)

  pass-HasRetried : HasRetried (suc k) (process_retry_queue w m)
  unfolding process_retry_queue
  pass-HasRetried = record {
    known = λ b i. (pass_one b i).0;
    retried_enough = λ b i. (pass_one b i).1;
    spared = λ z b i. (pass_one b i).2;
    room = λ b i. ground (
      arith,
      pass_one b i,
      small,
      length-retain-le (retry_all w m.max_retry_limit m.retry_queue m.sessions).0 m.retry_queue,
    );
  }

-- Passes, one after the other.
unfoldable pub process_passes : List Sweeps → PrivacySessionManager → PrivacySessionManager
process_passes [] m = m
process_passes (w ∷ ws) m = process_passes ws (process_retry_queue w m)

-- With enough retries nothing is left in the queue.
spent-empty :
    (k : ℕ) (m : PrivacySessionManager)
    → HasRetried k m
    → m.max_retry_limit < k
    → m.retry_queue ≡ []
spent-empty k m h e = emptied m.retry_queue refl
  where
    emptied : (queue : List ℕ) → m.retry_queue ≡ queue → queue ≡ []
    emptied [] q = refl
    emptied (a ∷ queue) q =
        let i : contains a m.retry_queue ≡ true = ground (arith, q, ==_self a) in
        absurd (omega (arith, h.retried_enough a i, h.spared (omega arith) a i))

emptied_after :
    (ws : List Sweeps) (k : ℕ) (m : PrivacySessionManager)
    → m.max_retry_limit + length m.retry_queue < 2 ^ 32
    → HasRetried k m
    → m.max_retry_limit < k + length ws
    → (process_passes ws m).retry_queue ≡ []
unfolding process_passes
emptied_after [] k m small h e = spent-empty k m h (omega arith)
emptied_after (w ∷ ws) k m small h e =
    emptied_after ws (suc k) (process_retry_queue w m) (pass_small w m small)
      (pass-HasRetried w k m small h) (pass_limit w m k (length ws) (omega arith))

-- One pass more than the retry limit (six, as the service is built) empties the retry queue,
-- whatever stealth wallets are in memory and whichever sweeps succeed in each pass: no address is
-- retried for ever. Each queued address has a session, as `register_failed_sweep` sees to, and the
-- counts are far below the wrap of `u32`.
pub process_passes_empties :
    (ws : List Sweeps) (m : PrivacySessionManager)
    → ((b : ℕ) → contains b m.retry_queue ≡ true → has_session b m.sessions ≡ true)
    → ((b : ℕ) → count_of b m.sessions + length m.retry_queue < 2 ^ 32)
    → m.max_retry_limit + length m.retry_queue < 2 ^ 32
    → m.max_retry_limit < length ws
    → (process_passes ws m).retry_queue ≡ []
process_passes_empties ws m known room small enough =
    emptied_after ws 0 m small
      (record {
        known = known;
        retried_enough = λ b i. omega arith;
        spared = λ (z : 0 < 0) b i. absurd (omega arith);
        room = λ b i. room b;
      })
      (omega arith)
