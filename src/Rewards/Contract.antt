-- ===== src/Rewards/Contract.antt =====
-- contracts/rewards/src/lib.rs, with storage.rs, config.rs, validation.rs and views.rs.
use xcron_protocol.Prelude.{
  ℕ, ◌+◌, ◌*◌, ◌/◌, Bool, true, false, not, ◌||◌, Option, some, List, [], ◌∷◌, leb, ltb, ◌==◌, Dict,
  insert, erase, read,
}
use xcron_protocol.Framework.{
  Result, ok, after, ◌>>=◌, ◌>>◌, guard, Address, Ctx, Account, SetMapper, contains, insert_item,
  swap_remove, receive, non_payable, require_owner, direct_egld, sub_big, u32, contract_paused,
  not_authorized, split_exceeds_100, no_pending_rewards, insufficient_treasury,
}
use xcron_protocol.Common.{bps_denominator}

pub record State (S : Type 0) : Type 0 where
  pub keeper_registry_addr : Option Address
  pub treasury_split_bps : ℕ
  pub pending_rewards : Dict ℕ
  pub treasury_balance : ℕ
  pub authorized_schedulers : S
  pub version : ℕ
  pub paused : Bool
  pub account : Account

module _ {S : Type 0} where
  unfoldable pub init : Address → ℕ → State S → State S
  init keeper_registry treasury_split_bps s = record s {
    keeper_registry_addr = some keeper_registry;
    treasury_split_bps = treasury_split_bps;
    treasury_balance = 0;
    paused = false;
    version = 1;
  }

  -- `set_if_empty` with zero changes nothing.
  unfoldable pub upgrade : State S → State S
  upgrade s = record s { version = u32 (s.version + 1) }

  unfoldable pub pause : Ctx → State S → Result (State S)
  pause c s = do require_owner c; ok (record s { paused = true })

  unfoldable pub unpause : Ctx → State S → Result (State S)
  unpause c s = do require_owner c; ok (record s { paused = false })

  -- `*bal -= &amount` comes after the test that `amount` is covered.
  unfoldable pub withdraw_treasury : Ctx → Address → ℕ → State S → Result (State S)
  withdraw_treasury c to amount s = do
    require_owner c
    guard (leb amount s.treasury_balance) insufficient_treasury
    left ← sub_big s.treasury_balance amount
    account ← direct_egld to amount s.account
    ok (record s { treasury_balance = left; account = account })

  unfoldable pub claim_rewards : Ctx → State S → Result (State S)
  claim_rewards c s = do
    non_payable c
    guard (not s.paused) contract_paused
    let amount = read c.caller s.pending_rewards
    guard (ltb 0 amount) no_pending_rewards
    account ← direct_egld c.caller amount s.account
    ok (record s { pending_rewards = erase c.caller s.pending_rewards; account = account })

  unfoldable pub set_treasury_split_bps : Ctx → ℕ → State S → Result (State S)
  set_treasury_split_bps c value s = do
    require_owner c
    guard (leb value bps_denominator) split_exceeds_100
    ok (record s { treasury_split_bps = value })

  unfoldable pub set_keeper_registry_addr : Ctx → Address → State S → Result (State S)
  set_keeper_registry_addr c addr s = do
    require_owner c
    ok (record s { keeper_registry_addr = some addr })

  unfoldable pub get_pending_rewards : Address → State S → ℕ
  get_pending_rewards keeper s = read keeper s.pending_rewards

abbrev pub treasury_cut : ℕ → ℕ → ℕ
treasury_cut fee split = fee * split / bps_denominator

module _ {S : Type 0} ⦃sets : SetMapper S⦄ where
  abbrev pub require_scheduler_caller : Ctx → State S → Result (Unit {0})
  require_scheduler_caller c s =
      guard (contains c.caller s.authorized_schedulers || c.caller == c.owner) not_authorized

  unfoldable pub receive_execution_fee : Ctx → Address → State S → Result (State S)
  receive_execution_fee c keeper s = do
    require_scheduler_caller c s
    let cut = treasury_cut c.egld s.treasury_split_bps
    bonus ← sub_big c.egld cut
    ok (record s {
      treasury_balance = s.treasury_balance + cut;
      pending_rewards = insert keeper (read keeper s.pending_rewards + bonus) s.pending_rewards;
      account = receive c s.account;
    })

  unfoldable pub add_authorized_scheduler : Ctx → Address → State S → Result (State S)
  add_authorized_scheduler c addr s = do
    require_owner c
    ok (record s { authorized_schedulers = insert_item addr s.authorized_schedulers })

  unfoldable pub remove_authorized_scheduler : Ctx → Address → State S → Result (State S)
  remove_authorized_scheduler c addr s = do
    require_owner c
    ok (record s { authorized_schedulers = swap_remove addr s.authorized_schedulers })

pub data Call : Type 0 where
  receive_fee : (keeper : Address) → Call
  claim pause_call unpause_call upgrade_call : Call
  withdraw_call : (to : Address) (amount : ℕ) → Call
  split_call : (value : ℕ) → Call
  registry_call authorize_call deauthorize_call : (addr : Address) → Call

module _ {S : Type 0} ⦃sets : SetMapper S⦄ where
  unfoldable pub dispatch : Ctx → Call → State S → Result (State S)
  dispatch c (receive_fee keeper) s = receive_execution_fee c keeper s
  dispatch c claim s = claim_rewards c s
  dispatch c pause_call s = pause c s
  dispatch c unpause_call s = unpause c s
  dispatch c upgrade_call s = ok (upgrade s)
  dispatch c (withdraw_call to amount) s = withdraw_treasury c to amount s
  dispatch c (split_call value) s = set_treasury_split_bps c value s
  dispatch c (registry_call addr) s = set_keeper_registry_addr c addr s
  dispatch c (authorize_call addr) s = add_authorized_scheduler c addr s
  dispatch c (deauthorize_call addr) s = remove_authorized_scheduler c addr s

  -- A sequence of transactions; one that fails leaves the state as it was.
  unfoldable pub run : List (Ctx × Call) → State S → State S
  run [] s = s
  run ((c, call) ∷ calls) s = run calls (after s (dispatch c call s))
