-- ===== src/Shield/Limits.antt =====
-- The daily limits of the agent shield.
use xcron_protocol.Prelude.{
  ℕ, ◌+◌, ◌-◌, ◌≤◌, ◌<◌, ◌≡◌, Bool, true, false, some, inl, inr, ==_self, lt→ltb, le→leb, ap,
  Bool-cases, ltb, leb, List, [], ◌∷◌, arith, ◌==◌, insert, read, read-insert, is_one_of, refl,
}
use xcron_protocol.Framework.{
  err, ok, Result, emit, send_esdt, Address, TokenId, Ctx, Ensures, Ensures-bind, Returns, after,
  after-Ensures, threshold_exceeded,
}
use xcron_protocol.Shield.Contract.{
  State, Call, dispatch, run, set_shield_limit, pause_shield, unpause_shield, upgrade,
  fund_treasury, agent_propose_execution, agent_execution_callback, emergency_withdraw, forward,
  spend_token, set_spent, take_payments, require_proposal, spend_within_limit, day_of, prohibited,
}

-- No limit is above a bound, and no day's spending is.
pub record IsWithin (token bound : ℕ) (s : State) : Type 0 where
  pub limited : read token s.shield_daily_limit ≤ bound
  pub spent : (day : ℕ) → s.daily_spent token day ≤ bound

-- A limit of the token that the owner sets is within the bound.
abbrev IsModest : ℕ → ℕ → Call → Type 0
IsModest token bound (Call.limit_call t n) = t ≡ token → n ≤ bound
IsModest token bound _ = Unit

abbrev AllModest : ℕ → ℕ → List (Ctx × Call) → Type 0
AllModest token bound [] = Unit
AllModest token bound ((c, call) ∷ calls) = IsModest token bound call × AllModest token bound calls

set_spent-IsWithin :
    (t : TokenId) (day n token bound : ℕ) (s : State)
    → (t ≡ token → n ≤ bound)
    → IsWithin token bound s
    → IsWithin token bound (set_spent t day n s)
set_spent-IsWithin t day n token bound s k h = record {
  limited = h.limited;
  spent = λ d. ground (arith, k, h.spent d);
}

at_most_spent :
    (f : TokenId → ℕ → ℕ) (t token day n bound : ℕ)
    → t ≡ token
    → f token day ≤ bound
    → f t day - n ≤ bound
at_most_spent f t token day n bound e h = omega (arith, h, ap (λ x. f x day) e)

always : {A : Type 0} (r : Result A) → Ensures (λ a. Unit {0}) r
always (ok a) = tt
always (err e) = tt

limit-IsWithin :
    (t : TokenId) (n token bound : ℕ) (s : State)
    → (t ≡ token → n ≤ bound)
    → IsWithin token bound s
    → IsWithin token bound (record s { shield_daily_limit = insert t n s.shield_daily_limit })
limit-IsWithin t n token bound s l h = record {
  limited = ground (arith, l, read-insert t token n s.shield_daily_limit, h.limited);
  spent = h.spent;
}

-- Only the limits and the days' spending matter.
kept :
    (token bound : ℕ) (s s' : State)
    → s'.shield_daily_limit ≡ s.shield_daily_limit
    → s'.daily_spent ≡ s.daily_spent
    → IsWithin token bound s
    → IsWithin token bound s'
kept token bound s s' e e' h = record { limited = rw e h.limited; spent = λ d. rw e' (h.spent d) }

spend_token-IsWithin :
    (t : TokenId) (n token bound : ℕ) (s : State)
    → IsWithin token bound s
    → Ensures (IsWithin token bound) (spend_token t n s)
unfolding spend_token
spend_token-IsWithin t n token bound s h = ground (
  arith,
  kept token bound s (record s { tokens = insert t (read t s.tokens - n) s.tokens }) refl refl h,
)

forward-IsWithin :
    (target : Address) (t : TokenId) (n : ℕ) (f args : List ℕ) (token bound : ℕ) (s : State)
    → IsWithin token bound s
    → Ensures (IsWithin token bound) (forward target t n f args s)
unfolding forward
forward-IsWithin target t n f args token bound s h = elim (Bool-cases (ltb 0 n)) [
  | inl e ↦ rw e (
      Ensures-bind (IsWithin token bound) (IsWithin token bound) (spend_token t n s) _
        (spend_token-IsWithin t n token bound s h) (λ s1 h1. kept token bound s1 _ refl refl h1))
  | inr e ↦ rw e (kept token bound s _ refl refl h)
]

emergency_withdraw-IsWithin :
    (c : Ctx) (t : TokenId) (n token bound : ℕ) (s : State)
    → IsWithin token bound s
    → Ensures (IsWithin token bound) (emergency_withdraw c t n s)
unfolding emergency_withdraw spend_token
emergency_withdraw-IsWithin c t n token bound s h =
    let left = insert t (read t s.tokens - n) s.tokens in
    let a = emit (send_esdt c.caller t n) s.account in
    ground (arith, kept token bound s (record s { tokens = left; account = a }) refl refl h)

spend_within_limit-IsWithin :
    (c : Ctx) (target : Address) (t : TokenId) (n : ℕ) (f args : List ℕ) (token bound : ℕ)
    (s : State)
    → IsWithin token bound s
    → Ensures (IsWithin token bound) (spend_within_limit c target t n f args s)
unfolding spend_within_limit
spend_within_limit-IsWithin c target t n f args token bound s h =
    let day = day_of c.timestamp in
    let spent = s.daily_spent t day + n in
    let k : spent ≤ read t s.shield_daily_limit
        → Ensures (IsWithin token bound) (forward target t n f args (set_spent t day spent s)) =
      (λ below. forward-IsWithin target t n f args token bound (set_spent t day spent s) (
        set_spent-IsWithin t day spent token bound s (λ e. ground (arith, e, below, h.limited))
          h)) in
    ground (arith, k)

module _ (valid : TokenId → Bool) where
  propose-IsWithin :
      (c : Ctx) (target : Address) (t : TokenId) (n : ℕ) (f args : List ℕ) (token bound : ℕ)
      (s : State)
      → IsWithin token bound s
      → Ensures (IsWithin token bound) (agent_propose_execution valid c target t n f args s)
  unfolding agent_propose_execution
  propose-IsWithin c target t n f args token bound s h =
      Ensures-bind (λ u. Unit) (IsWithin token bound) (require_proposal valid c t f s) _
        (always (require_proposal valid c t f s))
        (λ u v. spend_within_limit-IsWithin c target t n f args token bound s h)

  dispatch-IsWithin :
      (c : Ctx) (call : Call) (token bound : ℕ) (s : State)
      → IsModest token bound call
      → IsWithin token bound s
      → Ensures (IsWithin token bound) (dispatch valid c call s)
  unfolding dispatch pause_shield unpause_shield upgrade fund_treasury set_shield_limit
      emergency_withdraw agent_execution_callback
  dispatch-IsWithin c (Call.propose target t n f args) token bound s l h =
      propose-IsWithin c target t n f args token bound s h
  dispatch-IsWithin c (Call.limit_call t n) token bound s l h =
      ground (arith, limit-IsWithin t n token bound s l h)
  dispatch-IsWithin c (Call.withdraw_call t n) token bound s l h =
      emergency_withdraw-IsWithin c t n token bound s h
  dispatch-IsWithin c Call.pause_call token bound s l h =
      ground (arith, kept token bound s (record s { is_paused = true }) refl refl h)
  dispatch-IsWithin c Call.unpause_call token bound s l h =
      ground (arith, kept token bound s (record s { is_paused = false }) refl refl h)
  dispatch-IsWithin c Call.upgrade_call token bound s l h = h
  dispatch-IsWithin c Call.fund token bound s l h =
      kept token bound s (take_payments c s) refl refl h
  dispatch-IsWithin c (Call.executed t day n true) token bound s l h =
      kept token bound s (take_payments c s) refl refl h
  dispatch-IsWithin c (Call.executed t day n false) token bound s l h =
      let s1 = take_payments c s in
      let h1 = kept token bound s s1 refl refl h in
      elim (Bool-cases (leb n (s.daily_spent t day))) [
        | inl e ↦ rw e (
            set_spent-IsWithin t day (s.daily_spent t day - n) token bound s1
              (λ k. at_most_spent s.daily_spent t token day n bound k (h.spent day)) h1)
        | inr e ↦ rw e h1
      ]

  -- Whatever the agent proposes, and whichever executions fail, what is booked as spent of a token on
  -- any day stays within a bound, as long as the owner sets no limit of the token above the bound and
  -- it held before.
  pub run-IsWithin :
      (calls : List (Ctx × Call)) (token bound : ℕ) (s : State)
      → AllModest token bound calls
      → IsWithin token bound s
      → IsWithin token bound (run valid calls s)
  unfolding run
  run-IsWithin [] token bound s l h = h
  run-IsWithin ((c, call) ∷ calls) token bound s l h =
      run-IsWithin calls token bound (after s (dispatch valid c call s)) l.1 (
        after-Ensures (IsWithin token bound) s (dispatch valid c call s) h
          (dispatch-IsWithin c call token bound s l.0 h))

  -- When the shield takes a proposal, but for the limit and the target.
  abbrev IsReady : Ctx → TokenId → State → Type 0
  IsReady c t s =
      (c.egld ≡ 0) × (s.is_paused ≡ false) × (valid t ≡ true) × (s.authorized_agent ≡ some c.caller)

  -- Neither the function nor the target is refused.
  abbrev IsPermitted : Ctx → Address → List ℕ → Type 0
  IsPermitted c target f = (is_one_of f prohibited ≡ false) × ((target == c.self_addr) ≡ false)

  exceeding-err :
      (c : Ctx) (target : Address) (t : TokenId) (n : ℕ) (f args : List ℕ) (s : State)
      → IsReady c t s
      → IsPermitted c target f
      → (0 < read t s.shield_daily_limit)
        × (read t s.shield_daily_limit < s.daily_spent t (day_of c.timestamp) + n)
      → agent_propose_execution valid c target t n f args s ≡ err threshold_exceeded
  unfolding agent_propose_execution require_proposal spend_within_limit
  exceeding-err c target t n f args s ready fine over =
      let spent = s.daily_spent t (day_of c.timestamp) + n in
      let limit = read t s.shield_daily_limit in
      let a : (limit == 0) ≡ false = ground (arith, over) in
      let b : leb spent limit ≡ false = ground (arith, over) in
      rw (ready.0, ready.1, ready.2, ready.3, ==_self c.caller, fine.0, a, b) refl

  accepted :
      (c : Ctx) (target : Address) (t : TokenId) (n : ℕ) (f args : List ℕ) (s : State)
      → IsReady c t s
      → IsPermitted c target f
      → (0 < read t s.shield_daily_limit)
        × (s.daily_spent t (day_of c.timestamp) + n ≤ read t s.shield_daily_limit)
      → (0 < n) × (n ≤ read t s.tokens)
      → Returns (λ s'. s'.is_paused ≡ false) (agent_propose_execution valid c target t n f args s)
  unfolding agent_propose_execution require_proposal spend_within_limit forward spend_token
  accepted c target t n f args s ready fine within held =
      let spent = s.daily_spent t (day_of c.timestamp) + n in
      let limit = read t s.shield_daily_limit in
      let a : (limit == 0) ≡ false = ground (arith, within) in
      let b : leb spent limit ≡ true = ground (arith, within) in
      rw
        (
          ready.0,
          ready.1,
          ready.2,
          ready.3,
          ==_self c.caller,
          fine.0,
          a,
          b,
          fine.1,
          lt→ltb 0 n held.0,
          le→leb n (read t s.tokens) held.1,
        )
        refl

  -- A proposal above the daily limit fails and leaves the shield as it was, not paused: the agent can
  -- still spend what is left of the limit in the same block. The freeze that the code announces is
  -- undone with the transaction that sets it.
  pub exceeding_leaves_open :
      (c : Ctx) (target : Address) (t : TokenId) (n m : ℕ) (f args : List ℕ) (s : State)
      → IsReady c t s
      → IsPermitted c target f
      → (0 < read t s.shield_daily_limit)
        × (read t s.shield_daily_limit < s.daily_spent t (day_of c.timestamp) + n)
      → (0 < m)
        × (m ≤ read t s.tokens)
        × (s.daily_spent t (day_of c.timestamp) + m ≤ read t s.shield_daily_limit)
      → (agent_propose_execution valid c target t n f args s ≡ err threshold_exceeded)
        × Returns
            (λ s'. s'.is_paused ≡ false)
            (agent_propose_execution valid c target t m f args
              (after s (agent_propose_execution valid c target t n f args s)))
  exceeding_leaves_open c target t n m f args s ready fine over rest =
      rw (exceeding-err c target t n f args s ready fine over)
        (refl, accepted c target t m f args s ready fine (over.0, rest.2) (rest.0, rest.1))
