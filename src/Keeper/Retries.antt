-- ===== src/Keeper/Retries.antt =====
-- How the loops of xcron-keeper-rs/src/session_db.rs count the retries of a session.
use xcron_protocol.Prelude.{
  ℕ, ◌+◌, ◌^◌, ◌≤◌, ◌<◌, ◌≡◌, refl, inl, inr, Bool, true, false, none, some, List, [], ◌∷◌, arith,
  Dict, lookup, lookup-insert, is_some, Option-cases, Bool-cases, length, ◌==◌,
}
use xcron_protocol.Keeper.Sessions.{
  PrivacySession, Sweeps, contains, wrap_u32, count_retry, retry_one, push_if, retry_all,
  complete_one, complete_all, swept,
}

abbrev pub has_session : ℕ → Dict PrivacySession → Bool
has_session a ps = is_some (lookup a ps)

abbrev pub count_of : ℕ → Dict PrivacySession → ℕ
count_of a ps = elim (lookup a ps) [ none ↦ 0 | some p ↦ p.retry_count ]

-- One more retry of a session that is there.
abbrev pub retried : PrivacySession → PrivacySession
retried p = record p { retry_count = wrap_u32 (p.retry_count + 1) }

-- What a step or a loop may do to the session of `b`: it stays, and at most `n` retries are counted.
abbrev pub Counted : ℕ → ℕ → Dict PrivacySession → Dict PrivacySession → Type 0
Counted b n ps qs =
    (has_session b qs ≡ true)
    × (count_of b ps ≤ count_of b qs)
    × (count_of b qs ≤ count_of b ps + n)

module _ (w : Sweeps) (limit a b : ℕ) (ps : Dict PrivacySession) where
  count_retry-Counted :
      has_session b ps ≡ true
      → count_of b ps + 1 < 2 ^ 32
      → Counted b 1 ps (count_retry limit a ps).1
  unfolding count_retry
  count_retry-Counted h k = elim (Option-cases (lookup a ps)) [
    | inl e ↦ ground (arith, e)
    | inr (p, e) ↦ ground (arith, e, lookup-insert a b (retried p) ps)
  ]

  retry_one-Counted :
      has_session b ps ≡ true
      → count_of b ps + 1 < 2 ^ 32
      → Counted b 1 ps (retry_one w limit a ps).1
  unfolding retry_one
  retry_one-Counted h k = ground (arith, count_retry-Counted)

-- A session that its step leaves in the queue has one more retry, and not too many.
retry_one_kept :
    (w : Sweeps) (limit a : ℕ) (ps : Dict PrivacySession)
    → has_session a ps ≡ true
    → count_of a ps + 1 < 2 ^ 32
    → (retry_one w limit a ps).0 ≡ false
    → (count_of a (retry_one w limit a ps).1 ≡ count_of a ps + 1) × (count_of a ps + 1 ≤ limit)
unfolding retry_one count_retry
retry_one_kept w limit a ps h k e = elim (Option-cases (lookup a ps)) [
  | inl n ↦ ground (arith, n)
  | inr (p, n) ↦ ground (arith, n, lookup-insert a a (retried p) ps)
]

-- The sessions of other addresses are left alone.
pub retry_one_frame :
    (w : Sweeps) (limit a b : ℕ) (ps : Dict PrivacySession)
    → (b == a) ≡ false
    → lookup b (retry_one w limit a ps).1 ≡ lookup b ps
unfolding retry_one count_retry
retry_one_frame w limit a b ps n = elim (Option-cases (lookup a ps)) [
  | inl e ↦ ground (arith, e)
  | inr (p, e) ↦ ground (arith, e, lookup-insert a b (retried p) ps)
]

module _ (w : Sweeps) (limit : ℕ) where
  pub retry_all_frame :
      (queue : List ℕ) (b : ℕ) (ps : Dict PrivacySession)
      → contains b queue ≡ false
      → lookup b (retry_all w limit queue ps).1 ≡ lookup b ps
  unfolding retry_all
  retry_all_frame [] b ps n = refl
  retry_all_frame (a ∷ queue) b ps n =
      ground
        (arith, retry_all_frame queue b (retry_one w limit a ps).1, retry_one_frame w limit a b ps)

  pub retry_all-Counted :
      (queue : List ℕ) (b : ℕ) (ps : Dict PrivacySession)
      → has_session b ps ≡ true
      → count_of b ps + length queue < 2 ^ 32
      → Counted b (length queue) ps (retry_all w limit queue ps).1
  unfolding retry_all
  retry_all-Counted [] b ps h k = ground arith
  retry_all-Counted (a ∷ queue) b ps h k =
      let step : Counted b 1 ps (retry_one w limit a ps).1 =
        retry_one-Counted w limit a b ps h (omega arith) in
      let rest = retry_all-Counted queue b (retry_one w limit a ps).1 step.0 (omega arith) in
      (rest.0, omega arith, omega arith)

  -- So it is along the queue.
  pub retry_all_kept :
      (queue : List ℕ) (b : ℕ) (ps : Dict PrivacySession)
      → has_session b ps ≡ true
      → count_of b ps + length queue < 2 ^ 32
      → contains b queue ≡ true
      → contains b (retry_all w limit queue ps).0 ≡ false
      → (count_of b ps + 1 ≤ count_of b (retry_all w limit queue ps).1)
        × (count_of b (retry_all w limit queue ps).1 ≤ limit)
  unfolding retry_all push_if
  retry_all_kept [] b ps h k m n = cc
  retry_all_kept (a ∷ queue) b ps h k m n =
      let step : Counted b 1 ps (retry_one w limit a ps).1 =
        retry_one-Counted w limit a b ps h (omega arith) in
      elim (Bool-cases (contains b queue)) [
        | inl e ↦
            (let rest =
                retry_all_kept queue b (retry_one w limit a ps).1 step.0 (omega arith) e
                  (ground (arith, n)) in
              (omega arith, rest.1))
        | inr e ↦
            (let same : b ≡ a = ground (arith, m, e) in
              ground (
                arith,
                n,
                e,
                same,
                retry_one_kept w limit b ps h,
                retry_all_frame queue b (retry_one w limit a ps).1 e,
              ))
      ]

-- The last loop: statuses change, and nothing else.
module _ (limit : ℕ) where
  complete_one-Counted :
      (a b : ℕ) (ps : Dict PrivacySession)
      → (has_session b (complete_one limit a ps) ≡ has_session b ps)
        × (count_of b (complete_one limit a ps) ≡ count_of b ps)
  unfolding complete_one
  complete_one-Counted a b ps = elim (Option-cases (lookup a ps)) [
    | inl e ↦ ground (arith, e)
    | inr (p, e) ↦ ground (arith, e, lookup-insert a b (record p { status = swept }) ps)
  ]

  pub complete_all-Counted :
      (out : List ℕ) (b : ℕ) (ps : Dict PrivacySession)
      → (has_session b (complete_all limit out ps) ≡ has_session b ps)
        × (count_of b (complete_all limit out ps) ≡ count_of b ps)
  unfolding complete_all
  complete_all-Counted [] b ps = (refl, refl)
  complete_all-Counted (a ∷ out) b ps =
      ground
        (arith, complete_all-Counted out b (complete_one limit a ps), complete_one-Counted a b ps)
