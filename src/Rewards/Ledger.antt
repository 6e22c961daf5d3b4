-- ===== src/Rewards/Ledger.antt =====
-- The Rewards contract against the ledger that it is meant to be: the split, the EGLD held, a treasury,
-- what each keeper may claim and what was sent, with no storage, no order of the entries and no
-- permissions.
use mathlib.Core.Path.{fun_ext}
use xcron_protocol.Prelude.{
  ℕ, ◌+◌, ◌-◌, ◌*◌, ◌/◌, ◌≡◌, refl, ◌∙◌, true, ◌&&◌, Option, none, some, List, [], ◌∷◌, arith, ◌==◌,
  leb, ltb, if◌then◌else◌, insert, erase, read, read-insert, read-erase,
}
use xcron_protocol.Framework.{
  Result, ok, err, after, Address, Ctx, Message, send_egld, SetMapper, is_ok, direct_egld,
}
use xcron_protocol.Rewards.Contract.{
  State, Call, claim, receive_fee, withdraw_call, split_call, pause, unpause, upgrade,
  withdraw_treasury, claim_rewards, set_treasury_split_bps, set_keeper_registry_addr,
  receive_execution_fee, add_authorized_scheduler, remove_authorized_scheduler, dispatch, run,
}

pub record Ledger : Type 0 where
  pub split : ℕ
  pub held : ℕ
  pub treasury : ℕ
  pub claims : Address → ℕ
  pub sent : List Message

-- What a transaction asks of the ledger.
pub data Entry : Type 0 where
  fee : (amount : ℕ) (keeper : Address) → Entry
  claimed : (keeper : Address) → Entry
  withdrawn : (to : Address) (amount : ℕ) → Entry
  split_set : (value : ℕ) → Entry
  unrelated : Entry

abbrev pub entry_of : Ctx → Call → Entry
entry_of c (receive_fee keeper) = fee c.egld keeper
entry_of c claim = claimed c.caller
entry_of c (withdraw_call to amount) = withdrawn to amount
entry_of c (split_call value) = split_set value
entry_of c _ = unrelated

-- The claims with that of one keeper replaced.
abbrev pub with_claim : Address → ℕ → (Address → ℕ) → Address → ℕ
with_claim k n claims j = if k == j then n else claims j

-- The ledger after an entry, or nothing where the entry is not allowed: the treasury takes its split
-- of a fee, in 10000ths and rounded down, and the keeper may claim the rest; a claim is paid in full;
-- the treasury pays no more than it has; a split is at most the whole.
abbrev pub post : Entry → Ledger → Option Ledger
post (fee amount k) l =
    let cut = amount * l.split / 10000 in
    if leb cut amount
    then some (record l {
      held = l.held + amount;
      treasury = l.treasury + cut;
      claims = with_claim k (l.claims k + (amount - cut)) l.claims;
    })
    else none
post (claimed k) l =
    if ltb 0 (l.claims k) && leb (l.claims k) l.held
    then some (record l {
      held = l.held - l.claims k;
      claims = with_claim k 0 l.claims;
      sent = send_egld k (l.claims k) ∷ l.sent;
    })
    else none
post (withdrawn to amount) l =
    if leb amount l.treasury && leb amount l.held
    then some (record l {
      held = l.held - amount;
      treasury = l.treasury - amount;
      sent = send_egld to amount ∷ l.sent;
    })
    else none
post (split_set value) l = if leb value 10000 then some (record l { split = value }) else none
post unrelated l = some l

abbrev pub post_all : List Entry → Ledger → Option Ledger
post_all [] l = some l
post_all (e ∷ es) l = elim (post e l) [ none ↦ none | some m ↦ post_all es m ]

-- Ledgers are equal field by field.
Ledger-ext :
    (l m : Ledger)
    → l.split ≡ m.split
    → l.held ≡ m.held
    → l.treasury ≡ m.treasury
    → l.claims ≡ m.claims
    → l.sent ≡ m.sent
    → some l ≡ some m
Ledger-ext l m p q r c o =
    λ i. some (record { split = p i; held = q i; treasury = r i; claims = c i; sent = o i })

module _ {S : Type 0} where
  -- What the contract's storage says of the ledger.
  abbrev pub ledger_of : State S → Ledger
  ledger_of s = record {
    split = s.treasury_split_bps;
    held = s.account.balance;
    treasury = s.treasury_balance;
    claims = λ k. read k s.pending_rewards;
    sent = s.account.outbox;
  }

  claims-insert :
      (k : Address) (n : ℕ) (s s' : State S)
      → s'.pending_rewards ≡ insert k n s.pending_rewards
      → with_claim k n (ledger_of s).claims ≡ (ledger_of s').claims
  claims-insert k n s s' e = fun_ext (λ j. rw (e, read-insert k j n s.pending_rewards) refl)

  claims-erase :
      (k : Address) (s s' : State S)
      → s'.pending_rewards ≡ erase k s.pending_rewards
      → with_claim k 0 (ledger_of s).claims ≡ (ledger_of s').claims
  claims-erase k s s' e = fun_ext (λ j. rw (e, read-erase k j s.pending_rewards) refl)

  claims-same :
      (s s' : State S)
      → s'.pending_rewards ≡ s.pending_rewards
      → (ledger_of s).claims ≡ (ledger_of s').claims
  claims-same s s' e = fun_ext (λ j. rw e refl)

module _ {S : Type 0} ⦃sets : SetMapper S⦄ where
  -- A transaction that succeeds posts the entry that it asks for, and the entry is allowed.
  dispatch-post :
      (c : Ctx) (call : Call) (s s' : State S)
      → dispatch c call s ≡ ok s'
      → post (entry_of c call) (ledger_of s) ≡ some (ledger_of s')
  unfolding dispatch receive_execution_fee claim_rewards withdraw_treasury direct_egld pause unpause
      upgrade set_treasury_split_bps set_keeper_registry_addr add_authorized_scheduler
      remove_authorized_scheduler
  dispatch-post c (receive_fee keeper) s s' d =
      let cut = c.egld * s.treasury_split_bps / 10000 in
      let bonus = read keeper s.pending_rewards + (c.egld - cut) in
      let allowed : leb cut c.egld ≡ true = ground (arith, d) in
      rw allowed (
        Ledger-ext _ (ledger_of s') (ground (arith, d)) (ground (arith, d)) (ground (arith, d))
          (claims-insert keeper bonus s s' (ground (arith, d))) (ground (arith, d)))
  dispatch-post c claim s s' d =
      let due = read c.caller s.pending_rewards in
      let allowed : (ltb 0 due && leb due s.account.balance) ≡ true = ground (arith, d) in
      rw allowed (
        Ledger-ext _ (ledger_of s') (ground (arith, d)) (ground (arith, d)) (ground (arith, d))
          (claims-erase c.caller s s' (ground (arith, d))) (ground (arith, d)))
  dispatch-post c (withdraw_call to amount) s s' d =
      let allowed : (leb amount s.treasury_balance && leb amount s.account.balance) ≡ true =
        ground (arith, d) in
      rw allowed (
        Ledger-ext _ (ledger_of s') (ground (arith, d)) (ground (arith, d)) (ground (arith, d))
          (claims-same s s' (ground (arith, d))) (ground (arith, d)))
  dispatch-post c (split_call value) s s' d =
      let allowed : leb value 10000 ≡ true = ground (arith, d) in
      rw allowed (
        Ledger-ext _ (ledger_of s') (ground (arith, d)) (ground (arith, d)) (ground (arith, d))
          (claims-same s s' (ground (arith, d))) (ground (arith, d)))
  dispatch-post c _ s s' d =
      Ledger-ext (ledger_of s) (ledger_of s') (ground (arith, d)) (ground (arith, d))
        (ground (arith, d)) (claims-same s s' (ground (arith, d))) (ground (arith, d))

  -- The entries of the transactions that succeed, in their order.
  abbrev pub entries : List (Ctx × Call) → State S → List Entry
  entries [] s = []
  entries ((c, call) ∷ calls) s =
      let rest = entries calls (after s (dispatch c call s)) in
      if is_ok (dispatch c call s) then entry_of c call ∷ rest else rest

  -- The entry of a transaction takes the ledger from the state before it to the state after it.
  post_all-entries :
      (e : Entry) (rest : List Entry) (s : State S) (r : Result (State S))
      → ((s' : State S) → r ≡ ok s' → post e (ledger_of s) ≡ some (ledger_of s'))
      → post_all (if is_ok r then e ∷ rest else rest) (ledger_of s)
        ≡ post_all rest (ledger_of (after s r))
  post_all-entries e rest s (ok s') h = rw (post_all, h s' refl) refl
  post_all-entries e rest s (err x) h = refl

  -- The contract implements the ledger: whatever transactions are sent, in any order, by anyone, the
  -- entries of those that succeed can all be posted to the ledger that the storage says at first, and
  -- the result is the ledger that it says at the end. So each fee is divided by the split then in
  -- force, each claim sends its keeper exactly what it clears, each withdrawal sends exactly what the
  -- treasury has less, and other transactions, and those that fail, change nothing of the ledger.
  pub run_refines :
      (calls : List (Ctx × Call)) (s : State S)
      → post_all (entries calls s) (ledger_of s) ≡ some (ledger_of (run calls s))
  unfolding run
  run_refines [] s = refl
  run_refines ((c, call) ∷ calls) s =
      let r = dispatch c call s in
      post_all-entries (entry_of c call) (entries calls (after s r)) s r (dispatch-post c call s)
      ∙ run_refines calls (after s r)
