-- ===== src/KeeperRegistry/State.antt =====
-- contracts/keeper-registry/src/storage.rs, the access control of validation.rs, the views of
-- views.rs, and the configuration endpoints of config.rs.
use xcron_protocol.Prelude.{
  ℕ, ◌+◌, Bool, true, false, not, ◌||◌, Option, none, some, leb, ◌==◌, if◌then◌else◌, Dict, lookup,
}
use xcron_protocol.Framework.{
  Result, ok, ◌>>◌, guard, Address, Ctx, Account, SetMapper, contains, insert_item, swap_remove,
  is_zero, u32, require_owner, not_authorized, slash_exceeds_100, slash_pct_exceeds_100,
  treasury_zero, contract_paused,
}
use xcron_protocol.Common.{KeeperInfo, bps_denominator, unstake_cooldown_seconds}

pub record State (S : Type 0) : Type 0 where
  pub keepers : Dict KeeperInfo
  pub active_keeper_set : S
  pub unstake_request_time : Dict ℕ
  pub min_stake : ℕ
  pub slash_pct_bps : ℕ
  pub cooldown_seconds : ℕ
  pub treasury_addr : Option Address
  pub authorized_callers : S
  pub version : ℕ
  pub staking_provider_addr : Option Address
  pub total_yield_generated : ℕ
  pub slashed_pending_unbond : Dict ℕ
  pub total_committed_cooldown_egld : ℕ
  pub paused : Bool
  pub account : Account

module _ {S : Type 0} ⦃sets : SetMapper S⦄ where
  -- `init`, on the storage of a new contract.
  unfoldable pub init : Ctx → ℕ → ℕ → ℕ → Address → State S → Result (State S)
  init c min_stake slash_pct_bps cooldown_seconds treasury s = do
    guard (leb slash_pct_bps 10000) slash_pct_exceeds_100
    guard (not (is_zero treasury)) treasury_zero
    ok (record s {
      min_stake = min_stake;
      slash_pct_bps = slash_pct_bps;
      cooldown_seconds = cooldown_seconds;
      treasury_addr = some treasury;
      paused = false;
      version = 1;
    })

  -- `set_if_empty` writes a number that is 0. To write a 0 over an empty slot changes nothing.
  unfoldable pub upgrade : State S → State S
  upgrade s = record s {
    version = u32 (s.version + 1);
    cooldown_seconds =
        if s.cooldown_seconds == 0 then unstake_cooldown_seconds else s.cooldown_seconds;
  }

  abbrev pub require_not_paused : State S → Result (Unit {0})
  require_not_paused s = guard (not s.paused) contract_paused

  unfoldable pub pause : Ctx → State S → Result (State S)
  pause c s = do require_owner c; ok (record s { paused = true })

  unfoldable pub unpause : Ctx → State S → Result (State S)
  unpause c s = do require_owner c; ok (record s { paused = false })

  abbrev pub require_authorized_caller : Ctx → State S → Result (Unit {0})
  require_authorized_caller c s =
      guard (contains c.caller s.authorized_callers || c.caller == c.owner) not_authorized

  unfoldable pub is_active_keeper : Address → State S → Bool
  is_active_keeper a s = elim (lookup a s.keepers) [ none ↦ false | some info ↦ info.active ]

  unfoldable pub get_keeper_stake : Address → State S → ℕ
  get_keeper_stake a s = elim (lookup a s.keepers) [ none ↦ 0 | some info ↦ info.stake ]

  unfoldable pub set_min_stake : Ctx → ℕ → State S → Result (State S)
  set_min_stake c value s = do require_owner c; ok (record s { min_stake = value })

  unfoldable pub set_slash_pct_bps : Ctx → ℕ → State S → Result (State S)
  set_slash_pct_bps c value s = do
    require_owner c
    guard (leb value bps_denominator) slash_exceeds_100
    ok (record s { slash_pct_bps = value })

  unfoldable pub set_cooldown_seconds : Ctx → ℕ → State S → Result (State S)
  set_cooldown_seconds c value s = do require_owner c; ok (record s { cooldown_seconds = value })

  unfoldable pub set_treasury_addr : Ctx → Address → State S → Result (State S)
  set_treasury_addr c addr s = do require_owner c; ok (record s { treasury_addr = some addr })

  unfoldable pub add_authorized_caller : Ctx → Address → State S → Result (State S)
  add_authorized_caller c addr s = do
    require_owner c
    ok (record s { authorized_callers = insert_item addr s.authorized_callers })

  unfoldable pub remove_authorized_caller : Ctx → Address → State S → Result (State S)
  remove_authorized_caller c addr s = do
    require_owner c
    ok (record s { authorized_callers = swap_remove addr s.authorized_callers })

  unfoldable pub set_staking_provider : Ctx → Address → State S → Result (State S)
  set_staking_provider c addr s = do
    require_owner c
    ok (record s { staking_provider_addr = some addr })
