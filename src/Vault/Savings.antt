-- ===== src/Vault/Savings.antt =====
-- contracts/vault/src/lib.rs: `deposit` to `withdraw_unbonded`. A callback runs in a transaction of
-- its own; `success` is the outcome of the call that it belongs to, and a call that failed returns
-- its EGLD with the callback.
use xcron_protocol.Prelude.{
  ℕ, ◌+◌, ◌-◌, Bool, [], ◌∷◌, leb, ltb, if◌then◌else◌, insert, erase, read, codes,
}
use xcron_protocol.Framework.{
  Result, ok, ◌>>=◌, ◌>>◌, guard, or_abort, Address, Ctx, receive, non_payable, direct_egld,
  register_promise, decode_error, zero_deposit, zero_withdraw, insufficient_balance,
  no_pending_withdrawals, unbonded_not_available,
}
use xcron_protocol.Vault.State.{State, require_not_paused}

unfoldable pub deposit : Ctx → State → Result State
deposit c s = do
  require_not_paused s
  guard (ltb 0 c.egld) zero_deposit
  delegation_addr ← or_abort s.delegation_contract decode_error
  account ← register_promise delegation_addr (codes "delegate") [] c.egld (receive c s.account)
  ok (record s {
    user_balance = insert c.caller (read c.caller s.user_balance + c.egld) s.user_balance;
    total_deposited = s.total_deposited + c.egld;
    account = account;
  })

-- `if total >= amount { total - amount }`, where otherwise nothing is written
abbrev pub lower : ℕ → ℕ → ℕ
lower total amount = if leb amount total then total - amount else total

-- The same, where otherwise 0 is written.
abbrev lower_or_clear : ℕ → ℕ → ℕ
lower_or_clear total amount = if leb amount total then total - amount else 0

unfoldable pub deposit_callback : Ctx → Address → ℕ → Bool → State → Result State
deposit_callback c caller deposit_amount success s =
    if success then ok (record s { account = receive c s.account }) else (do
      account ← direct_egld caller deposit_amount (receive c s.account)
      ok (record s {
        user_balance =
            insert caller (lower_or_clear (read caller s.user_balance) deposit_amount)
              s.user_balance;
        total_deposited = lower s.total_deposited deposit_amount;
        account = account;
      }))

unfoldable pub withdraw : Ctx → ℕ → State → Result State
withdraw c amount s = do
  non_payable c
  guard (ltb 0 amount) zero_withdraw
  let balance = read c.caller s.user_balance
  guard (leb amount balance) insufficient_balance
  delegation_addr ← or_abort s.delegation_contract decode_error
  account ← register_promise delegation_addr (codes "unDelegate") (amount ∷ []) 0 s.account
  ok (record s {
    user_balance = insert c.caller (balance - amount) s.user_balance;
    total_deposited = lower s.total_deposited amount;
    pending_withdrawals =
        insert c.caller (read c.caller s.pending_withdrawals + amount) s.pending_withdrawals;
    total_pending_withdrawals = s.total_pending_withdrawals + amount;
    account = account;
  })

-- What a failed undelegation takes back from the withdrawals that are due.
unfoldable pub cancel_pending : Address → ℕ → State → State
cancel_pending caller amount s =
    let pending = read caller s.pending_withdrawals in
    if leb amount pending
    then record s {
      pending_withdrawals = insert caller (pending - amount) s.pending_withdrawals;
      total_pending_withdrawals = lower_or_clear s.total_pending_withdrawals amount;
    }
    else s

unfoldable pub withdraw_callback : Ctx → Address → ℕ → Bool → State → Result State
unfolding cancel_pending
withdraw_callback c caller amount success s =
    let s1 = record s { account = receive c s.account } in
    if success
    then ok s1
    else ok (
        cancel_pending caller amount (record s1 {
          user_balance = insert caller (read caller s.user_balance + amount) s.user_balance;
          total_deposited = s.total_deposited + amount;
        }))

unfoldable pub claim_unbonded : Ctx → State → Result State
claim_unbonded c s = do
  non_payable c
  delegation_addr ← or_abort s.delegation_contract decode_error
  account ← register_promise delegation_addr (codes "claimUnbonded") [] 0 s.account
  ok (record s { account = account })

unfoldable pub withdraw_unbonded : Ctx → State → Result State
withdraw_unbonded c s = do
  non_payable c
  let amount_due = read c.caller s.pending_withdrawals
  guard (ltb 0 amount_due) no_pending_withdrawals
  guard (leb amount_due s.account.balance) unbonded_not_available
  account ← direct_egld c.caller amount_due s.account
  ok (record s {
    pending_withdrawals = erase c.caller s.pending_withdrawals;
    total_pending_withdrawals = lower_or_clear s.total_pending_withdrawals amount_due;
    account = account;
  })
