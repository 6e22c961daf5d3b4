-- ===== src/Vault/Pending.antt =====
-- The withdrawals that are due, and the EGLD that the strategies must leave for them.
use xcron_protocol.Prelude.{
  ℕ, ◌+◌, ◌-◌, ◌≤◌, ◌≡◌, Bool, true, false, List, [], ◌∷◌, arith, read, Distinct, Distinct-insert,
  Distinct-erase, total, total-insert, total-erase, share-le-total, id_ℕ, read-share,
}
use xcron_protocol.Framework.{Address, Ctx, Ensures, after, direct_egld, register_promise}
use xcron_protocol.Vault.State.{
  State, upgrade, pause, unpause, rescue_yield, set_scheduler_address, set_delegation_contract,
  set_dex_pair_contract, set_swap_amount, set_nft_contract, set_mint_price, set_mint_endpoint,
  set_max_slippage_bps,
}
use xcron_protocol.Vault.Savings.{
  deposit, deposit_callback, withdraw, withdraw_callback, claim_unbonded, withdraw_unbonded,
  cancel_pending,
}
use xcron_protocol.Vault.Strategies.{
  compound, compound_callback, claim_rewards, event_callback, swap, emergency_swap, mint,
  call_provider, send_swap,
}
use xcron_protocol.Vault.Calls.{Call, dispatch, run}

-- The recorded total is what the users are due.
pub record IsBooked (s : State) : Type 0 where
  pub distinct : Distinct s.pending_withdrawals
  pub booked : s.total_pending_withdrawals ≡ total id_ℕ s.pending_withdrawals

withdraw-IsBooked :
    (c : Ctx) (amount : ℕ) (s : State) → IsBooked s → Ensures IsBooked (withdraw c amount s)
unfolding withdraw register_promise
withdraw-IsBooked c amount s h =
    let n = read c.caller s.pending_withdrawals + amount in
    ground (
      arith,
      Distinct-insert c.caller n s.pending_withdrawals h.distinct,
      total-insert id_ℕ c.caller n s.pending_withdrawals,
      read-share c.caller s.pending_withdrawals,
    )

cancel_pending-IsBooked :
    (caller : Address) (amount : ℕ) (s : State)
    → IsBooked s
    → IsBooked (cancel_pending caller amount s)
unfolding cancel_pending
cancel_pending-IsBooked caller amount s h =
    let n = read caller s.pending_withdrawals - amount in
    ground (
      arith,
      Distinct-insert caller n s.pending_withdrawals h.distinct,
      total-insert id_ℕ caller n s.pending_withdrawals,
      read-share caller s.pending_withdrawals,
      share-le-total id_ℕ caller s.pending_withdrawals,
    )

withdraw_callback-IsBooked :
    (c : Ctx) (caller : Address) (amount : ℕ) (success : Bool) (s : State)
    → IsBooked s
    → Ensures IsBooked (withdraw_callback c caller amount success s)
unfolding withdraw_callback
withdraw_callback-IsBooked c caller amount true s h = ground arith
withdraw_callback-IsBooked c caller amount false s h =
    cancel_pending-IsBooked caller amount _ (ground arith)

withdraw_unbonded-IsBooked :
    (c : Ctx) (s : State) → IsBooked s → Ensures IsBooked (withdraw_unbonded c s)
unfolding withdraw_unbonded direct_egld
withdraw_unbonded-IsBooked c s h = ground (
  arith,
  Distinct-erase c.caller s.pending_withdrawals h.distinct,
  total-erase id_ℕ c.caller s.pending_withdrawals h.distinct,
  read-share c.caller s.pending_withdrawals,
)

dispatch-IsBooked :
    (c : Ctx) (call : Call) (s : State) → IsBooked s → Ensures IsBooked (dispatch c call s)
unfolding dispatch pause unpause upgrade rescue_yield set_scheduler_address set_delegation_contract
    set_dex_pair_contract set_swap_amount set_nft_contract set_mint_price set_mint_endpoint
    set_max_slippage_bps deposit deposit_callback claim_unbonded compound compound_callback
    claim_rewards event_callback swap emergency_swap mint call_provider send_swap register_promise
    direct_egld
dispatch-IsBooked c (Call.withdraw_call amount) s h = withdraw-IsBooked c amount s h
dispatch-IsBooked c (Call.withdraw_result caller amount success) s h =
    withdraw_callback-IsBooked c caller amount success s h
dispatch-IsBooked c Call.withdraw_unbonded_call s h = withdraw_unbonded-IsBooked c s h
dispatch-IsBooked c _ s h = ground arith

-- After any sequence of transactions and callbacks, the total of the withdrawals that are due is the
-- sum over the users, if it was before: the total is never lowered by more than a user is due.
pub run-IsBooked : (calls : List (Ctx × Call)) (s : State) → IsBooked s → IsBooked (run calls s)
unfolding run
run-IsBooked [] s h = h
run-IsBooked ((c, call) ∷ calls) s h =
    run-IsBooked calls (after s (dispatch c call s)) (ground (arith, dispatch-IsBooked c call s h))

-- The EGLD that is missing to pay all withdrawals that are due.
abbrev pub shortfall : State → ℕ
shortfall s = s.total_pending_withdrawals - s.account.balance

-- What the call asks to withdraw.
abbrev requested : Call → ℕ
requested (Call.withdraw_call amount) = amount
requested _ = 0

-- A delegation that failed returns what was sent with it.
abbrev IsRefunded : Ctx → Call → Type 0
IsRefunded c (Call.deposit_result caller amount false) = amount ≤ c.egld
IsRefunded c _ = Unit

shortfall-dispatch :
    (c : Ctx) (call : Call) (s : State)
    → IsRefunded c call
    → Ensures (λ s'. shortfall s' ≤ shortfall s + requested call) (dispatch c call s)
unfolding dispatch pause unpause upgrade rescue_yield set_scheduler_address set_delegation_contract
    set_dex_pair_contract set_swap_amount set_nft_contract set_mint_price set_mint_endpoint
    set_max_slippage_bps deposit deposit_callback claim_unbonded compound compound_callback
    claim_rewards event_callback swap emergency_swap mint call_provider send_swap register_promise
    direct_egld withdraw withdraw_callback withdraw_unbonded cancel_pending
shortfall-dispatch c (Call.deposit_result caller amount false) s h = ground arith
shortfall-dispatch c (Call.deposit_result caller amount true) s h = ground arith
shortfall-dispatch c (Call.withdraw_result caller amount false) s h = ground arith
shortfall-dispatch c (Call.withdraw_result caller amount true) s h = ground arith
shortfall-dispatch c _ s h = ground arith

abbrev AllRefunded : List (Ctx × Call) → Type 0
AllRefunded [] = Unit
AllRefunded ((c, call) ∷ calls) = IsRefunded c call × AllRefunded calls

abbrev pub all_requested : List (Ctx × Call) → ℕ
all_requested [] = 0
all_requested ((c, call) ∷ calls) = requested call + all_requested calls

-- The EGLD that is missing for the withdrawals that are due grows by no more than users ask to
-- withdraw: in any sequence of transactions and callbacks, no swap, mint, rescue, delegation or refund
-- takes what the balance holds for them, if a delegation that fails returns the EGLD it was sent.
pub shortfall-run :
    (calls : List (Ctx × Call)) (s : State)
    → AllRefunded calls
    → shortfall (run calls s) ≤ shortfall s + all_requested calls
unfolding run
shortfall-run [] s h = omega arith
shortfall-run ((c, call) ∷ calls) s h =
    ground (
      arith,
      shortfall-run calls (after s (dispatch c call s)) h.1,
      shortfall-dispatch c call s h.0,
    )
