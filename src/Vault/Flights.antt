-- ===== src/Vault/Flights.antt =====
-- Deposits whose delegation is still in flight, and what the callbacks do to the books.
use xcron_protocol.Prelude.{
  ℕ, ◌+◌, ◌-◌, ◌≤◌, ◌<◌, ◌≡◌, Bool, true, false, some, List, [], ◌∷◌, ◌++◌, arith, insert, read,
  Distinct, Distinct-insert, total, total-insert, id_ℕ, read-share, read-insert, ◌==◌,
  if◌then◌else◌, share-le-total,
}
use xcron_protocol.Framework.{
  ok, Address, Ctx, Ensures, Ensures-ok, Returns, direct_egld, register_promise, send_egld,
}
use xcron_protocol.Vault.State.{State}
use xcron_protocol.Vault.Savings.{
  deposit, deposit_callback, withdraw, withdraw_callback, lower, cancel_pending,
}

-- The deposits in flight, each with its depositor.
abbrev Flights : Type 0
Flights = List (Address × ℕ)

-- What a user has in flight.
abbrev in_flight : Address → Flights → ℕ
in_flight u [] = 0
in_flight u ((v, n) ∷ fs) = (if v == u then n else 0) + in_flight u fs

-- A deposit takes off and lands once, in any order; withdrawals come from users with nothing in
-- flight, and each of their undelegations may fail.
pub data Step : State × Flights → State × Flights → Type 0 where
  take_off :
      (c : Ctx) (s s' : State) (fs : Flights)
      → deposit c s ≡ ok s'
      → Step (s, fs) (s', (c.caller, c.egld) ∷ fs)
  land :
      (c : Ctx) (u : Address) (n : ℕ) (success : Bool) (s s' : State) (before rest : Flights)
      → deposit_callback c u n success s ≡ ok s'
      → Step (s, before ++ (u, n) ∷ rest) (s', before ++ rest)
  take_out :
      (c : Ctx) (n : ℕ) (s s' : State) (fs : Flights)
      → in_flight c.caller fs ≡ 0
      → withdraw c n s ≡ ok s'
      → Step (s, fs) (s', fs)
  put_back :
      (c : Ctx) (u : Address) (n : ℕ) (success : Bool) (s s' : State) (fs : Flights)
      → withdraw_callback c u n success s ≡ ok s'
      → Step (s, fs) (s', fs)

pub data Reach : State × Flights → State × Flights → Type 0 where
  here : (w : State × Flights) → Reach w w
  step : (w w' w'' : State × Flights) → Step w w' → Reach w' w'' → Reach w w''

-- The total is the sum of the balances, and each balance covers what its user has in flight.
pub record IsAccounted (w : State × Flights) : Type 0 where
  pub distinct : Distinct w.0.user_balance
  pub accounted : w.0.total_deposited ≡ total id_ℕ w.0.user_balance
  pub covers : (u : Address) → in_flight u w.1 ≤ read u w.0.user_balance

in_flight-append :
    (u : Address) (before rest : Flights)
    → in_flight u (before ++ rest) ≡ in_flight u before + in_flight u rest
in_flight-append u [] rest = omega arith
in_flight-append u (f ∷ before) rest = omega (arith, in_flight-append u before rest)

-- Books after one balance has been rewritten.
rewritten :
    (u : Address) (n : ℕ) (s s' : State) (fs fs' : Flights)
    → IsAccounted (s, fs)
    → s'.user_balance ≡ insert u n s.user_balance
    → s'.total_deposited + read u s.user_balance ≡ s.total_deposited + n
    → ((v : Address) → in_flight v fs' ≤ (if u == v then n else in_flight v fs))
    → IsAccounted (s', fs')
rewritten u n s s' fs fs' h e t f = record {
  distinct = rw e (Distinct-insert u n s.user_balance h.distinct);
  accounted =
      ground
        (arith, e, h.accounted, total-insert id_ℕ u n s.user_balance, read-share u s.user_balance);
  covers = λ v. ground (arith, e, f v, h.covers v, read-insert u v n s.user_balance);
}

-- What each operation does to the balances and their total.
abbrev Books : Address → ℕ → ℕ → State → State → Type 0
Books u n t s s' = (s'.user_balance ≡ insert u n s.user_balance) × (s'.total_deposited ≡ t)

deposit-Books :
    (c : Ctx) (s : State)
    → Ensures
        (Books c.caller (read c.caller s.user_balance + c.egld) (s.total_deposited + c.egld) s)
        (deposit c s)
unfolding deposit register_promise
deposit-Books c s = ground arith

withdraw-Books :
    (c : Ctx) (n : ℕ) (s : State)
    → Ensures
        (λ s'.
          Books c.caller (read c.caller s.user_balance - n) (lower s.total_deposited n) s s'
          × (n ≤ read c.caller s.user_balance))
        (withdraw c n s)
unfolding withdraw register_promise
withdraw-Books c n s = ground arith

withdraw_callback-Books :
    (c : Ctx) (u : Address) (n : ℕ) (s : State)
    → Ensures
        (Books u (read u s.user_balance + n) (s.total_deposited + n) s)
        (withdraw_callback c u n false s)
unfolding withdraw_callback cancel_pending
withdraw_callback-Books c u n s = ground arith

deposit_callback-Books :
    (c : Ctx) (u : Address) (n : ℕ) (s : State)
    → n ≤ read u s.user_balance
    → Ensures
        (Books u (read u s.user_balance - n) (lower s.total_deposited n) s)
        (deposit_callback c u n false s)
unfolding deposit_callback direct_egld
deposit_callback-Books c u n s h = ground arith

kept :
    (s s' : State) (fs fs' : Flights)
    → IsAccounted (s, fs)
    → s'.user_balance ≡ s.user_balance
    → s'.total_deposited ≡ s.total_deposited
    → ((v : Address) → in_flight v fs' ≤ in_flight v fs)
    → IsAccounted (s', fs')
kept s s' fs fs' h e t f = record {
  distinct = rw e h.distinct;
  accounted = ground (arith, e, h.accounted);
  covers = λ v. ground (arith, e, f v, h.covers v);
}

-- A balance is at most the total.
read-le :
    (u : Address) (w : State × Flights)
    → IsAccounted w
    → read u w.0.user_balance ≤ w.0.total_deposited
read-le u w h =
    ground
      (arith, h.accounted, share-le-total id_ℕ u w.0.user_balance, read-share u w.0.user_balance)

put_back_success :
    (c : Ctx) (u : Address) (n : ℕ) (s s' : State) (fs : Flights)
    → withdraw_callback c u n true s ≡ ok s'
    → IsAccounted (s, fs)
    → IsAccounted (s', fs)
unfolding withdraw_callback
put_back_success c u n s s' fs e h =
    kept s s' fs fs h (ground (arith, e)) (ground (arith, e)) (λ v. omega arith)

landing-fits :
    (u : Address) (n : ℕ) (s : State) (before rest : Flights)
    → IsAccounted (s, before ++ (u, n) ∷ rest)
    → n ≤ read u s.user_balance
landing-fits u n s before rest h =
    ground (arith, h.covers u, in_flight-append u before ((u, n) ∷ rest))

land-IsAccounted :
    (c : Ctx) (u : Address) (n : ℕ) (success : Bool) (s s' : State) (before rest : Flights)
    → deposit_callback c u n success s ≡ ok s'
    → IsAccounted (s, before ++ (u, n) ∷ rest)
    → IsAccounted (s', before ++ rest)
unfolding deposit_callback direct_egld
land-IsAccounted c u n true s s' before rest e h =
    kept s s' (before ++ (u, n) ∷ rest) (before ++ rest) h (ground (arith, e)) (ground (arith, e))
      (λ v.
        ground (arith, in_flight-append v before rest, in_flight-append v before ((u, n) ∷ rest)))
land-IsAccounted c u n false s s' before rest e h =
    let m = read u s.user_balance - n in
    let fs = before ++ (u, n) ∷ rest in
    let fits : n ≤ read u s.user_balance = landing-fits u n s before rest h in
    let books =
      Ensures-ok (Books u m (lower s.total_deposited n) s) (deposit_callback c u n false s)
        (deposit_callback-Books c u n s fits) e in
    rewritten u m s s' fs (before ++ rest) h books.0
      (ground (arith, books.1, fits, read-le u (s, fs) h))
      (λ v. ground (
        arith,
        h.covers v,
        in_flight-append v before rest,
        in_flight-append v before ((u, n) ∷ rest),
      ))

Step-IsAccounted : {w w' : State × Flights} → Step w w' → IsAccounted w → IsAccounted w'
Step-IsAccounted (take_off c s s' fs e) h =
    let n = read c.caller s.user_balance + c.egld in
    let books =
      Ensures-ok (Books c.caller n (s.total_deposited + c.egld) s) (deposit c s) (deposit-Books c s)
        e in
    rewritten c.caller n s s' fs ((c.caller, c.egld) ∷ fs) h books.0 (ground (arith, books.1))
      (λ v. ground (arith, h.covers v))
Step-IsAccounted (land c u n b s s' before rest e) h = land-IsAccounted c u n b s s' before rest e h
Step-IsAccounted (take_out c n s s' fs idle e) h =
    let m = read c.caller s.user_balance - n in
    let books =
      Ensures-ok
        (λ s'.
          Books c.caller m (lower s.total_deposited n) s s' × (n ≤ read c.caller s.user_balance))
        (withdraw c n s) (withdraw-Books c n s) e in
    rewritten c.caller m s s' fs fs h books.0.0
      (ground (arith, books.0.1, books.1, read-le c.caller (s, fs) h)) (λ v. ground (arith, idle))
Step-IsAccounted (put_back c u n false s s' fs e) h =
    let m = read u s.user_balance + n in
    let books =
      Ensures-ok (Books u m (s.total_deposited + n) s) (withdraw_callback c u n false s)
        (withdraw_callback-Books c u n s) e in
    rewritten u m s s' fs fs h books.0 (ground (arith, books.1)) (λ v. ground (arith, h.covers v))
Step-IsAccounted (put_back c u n true s s' fs e) h = put_back_success c u n s s' fs e h

-- As long as users withdraw only when none of their deposits is in flight, the recorded total of
-- deposits is the sum of the users' balances, and each balance covers what its user has in flight, in
-- every state that is reached, whichever delegations and undelegations fail and in whatever order
-- they return.
pub Reach-IsAccounted : {w w' : State × Flights} → Reach w w' → IsAccounted w → IsAccounted w'
Reach-IsAccounted (here w) h = h
Reach-IsAccounted (step w w' w'' st r) h = Reach-IsAccounted r (Step-IsAccounted st h)

-- A user who withdraws the whole of a deposit that is in flight, and whose delegation then fails, gets
-- the deposit back and is due it a second time: the refund leaves the withdrawal that is due as it is.
pub withdraw_in_flight_pays_twice :
    (c c' c'' : Ctx) (delegation : Address) (s : State)
    → (s.paused ≡ false) × (s.delegation_contract ≡ some delegation)
    → (0 < c.egld) × (read c.caller s.user_balance ≡ 0) × (read c.caller s.pending_withdrawals ≡ 0)
    → (c'.caller ≡ c.caller) × (c'.egld ≡ 0) × (c''.egld ≡ c.egld)
    → Returns
        (λ s1.
          Returns
            (λ s2.
              Returns
                (λ s3.
                  (read c.caller s3.pending_withdrawals ≡ c.egld)
                  × (s3.account.balance ≡ s.account.balance)
                  × (s3.account.outbox ≡ send_egld c.caller c.egld ∷ s2.account.outbox))
                (deposit_callback c'' c.caller c.egld false s2))
            (withdraw c' c.egld s1))
        (deposit c s)
unfolding deposit withdraw deposit_callback register_promise direct_egld
withdraw_in_flight_pays_twice c c' c'' delegation s calm fresh calls = ground (
  arith,
  calm,
  fresh,
  read-insert c.caller c.caller c.egld s.user_balance,
  read-insert c.caller c.caller c.egld s.pending_withdrawals,
)
