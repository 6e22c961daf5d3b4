-- ===== src/Scheduler/CloneKeys.antt =====
-- Clone-Keys: contracts/scheduler/src/clone_keys.rs.
use xcron_protocol.Prelude.{
  ℕ, ◌+◌, ◌-◌, Bool, true, false, not, none, some, leb, ltb, ◌==◌, is_none, if◌then◌else◌, lookup,
  insert, erase,
}
use xcron_protocol.Framework.{
  Result, ok, ◌>>=◌, ◌>>◌, guard, or_abort, Address, Ctx, SetMapper, len, receive, non_payable, u64,
  decode_error, must_deposit_spend_limit, spend_limit_exceeds_max, ttl_too_short, ttl_too_long,
  cannot_authorize_self, clone_key_already_authorized, too_many_clone_keys, clone_key_not_found,
  not_clone_key_owner, must_send_egld, clone_key_expired, new_limit_exceeds_max,
  clone_key_limit_exceeded,
}
use xcron_protocol.Common.{
  CloneKeyProperties, max_clone_key_spend_limit, max_clone_keys_per_wallet,
  max_clone_key_ttl_seconds, min_clone_key_ttl_seconds,
}
use xcron_protocol.Scheduler.State.{State, require_not_paused, pay, set_of, add_to, remove_from}

abbrev pub new_clone_key : Ctx → ℕ → CloneKeyProperties
new_clone_key c ttl_seconds = record {
  main_address = c.caller;
  spend_limit = c.egld;
  spent_amount = 0;
  expiry_timestamp = u64 (c.timestamp + ttl_seconds);
}

-- The budget that a Clone-Key has left.
abbrev pub unspent : CloneKeyProperties → ℕ
unspent props =
    if ltb props.spent_amount props.spend_limit then props.spend_limit - props.spent_amount else 0

module _ {S V : Type 0} ⦃sets : SetMapper S⦄ where
  unfoldable pub authorize_clone_key : Ctx → Address → ℕ → State S V → Result (State S V)
  authorize_clone_key c clone ttl_seconds s = do
    require_not_paused s
    guard (ltb 0 c.egld) must_deposit_spend_limit
    guard (leb c.egld max_clone_key_spend_limit) spend_limit_exceeds_max
    guard (leb min_clone_key_ttl_seconds ttl_seconds) ttl_too_short
    guard (leb ttl_seconds max_clone_key_ttl_seconds) ttl_too_long
    guard (not (clone == c.caller)) cannot_authorize_self
    guard (is_none (lookup clone s.clone_key_props)) clone_key_already_authorized
    guard (ltb (len (set_of c.caller s.wallet_clone_keys)) max_clone_keys_per_wallet)
        too_many_clone_keys
    ok (record s {
      clone_key_props = insert clone (new_clone_key c ttl_seconds) s.clone_key_props;
      wallet_clone_keys = add_to c.caller clone s.wallet_clone_keys;
      account = receive c s.account;
    })

  unfoldable pub revoke_clone_key : Ctx → Address → State S V → Result (State S V)
  revoke_clone_key c clone s = do
    non_payable c
    props ← or_abort (lookup clone s.clone_key_props) clone_key_not_found
    guard (props.main_address == c.caller) not_clone_key_owner
    let refund = unspent props
    let revoked = record s {
      clone_key_props = erase clone s.clone_key_props;
      wallet_clone_keys = remove_from c.caller clone s.wallet_clone_keys;
    }
    if ltb 0 refund then pay c.caller refund revoked else ok revoked

module _ {S V : Type 0} where
  unfoldable pub fund_clone_key : Ctx → Address → State S V → Result (State S V)
  fund_clone_key c clone s = do
    require_not_paused s
    guard (ltb 0 c.egld) must_send_egld
    props ← or_abort (lookup clone s.clone_key_props) clone_key_not_found
    guard (props.main_address == c.caller) not_clone_key_owner
    guard (ltb c.timestamp props.expiry_timestamp) clone_key_expired
    let new_limit = props.spend_limit + c.egld
    guard (leb new_limit max_clone_key_spend_limit) new_limit_exceeds_max
    ok (record s {
      clone_key_props = insert clone (record props { spend_limit = new_limit }) s.clone_key_props;
      account = receive c s.account;
    })

  -- The owner that a call acts for, and whether a Clone-Key makes it.
  unfoldable pub resolve_caller : Ctx → State S V → Address × Bool
  resolve_caller c s = elim (lookup c.caller s.clone_key_props) [
    | none ↦ (c.caller, false)
    | some props ↦
        if leb props.expiry_timestamp c.timestamp
        then (c.caller, false)
        else (props.main_address, true)
  ]

  unfoldable pub charge_clone_key : Ctx → Address → ℕ → State S V → Result (State S V)
  charge_clone_key c clone amount s = do
    props ← or_abort (lookup clone s.clone_key_props) decode_error
    guard (ltb c.timestamp props.expiry_timestamp) clone_key_expired
    let new_spent = props.spent_amount + amount
    guard (leb new_spent props.spend_limit) clone_key_limit_exceeded
    ok (record s {
      clone_key_props = insert clone (record props { spent_amount = new_spent }) s.clone_key_props;
    })
