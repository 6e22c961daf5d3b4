-- ===== src/Vault/State.antt =====
-- contracts/vault/src/lib.rs: storage, `init`, pausing, the owner's settings and the views.
use xcron_protocol.Prelude.{
  ℕ, ◌-◌, Bool, true, false, not, Option, some, List, leb, ltb, ◌==◌, if◌then◌else◌, Dict, read,
}
use xcron_protocol.Framework.{
  Result, ok, ◌>>=◌, ◌>>◌, guard, or_abort, Address, Ctx, Account, require_owner, direct_egld,
  contract_paused, not_authorized, decode_error, exceeds_safe_liquid, slippage_above_50,
}

pub record State : Type 0 where
  pub user_balance : Dict ℕ
  pub total_deposited : ℕ
  pub total_compounded : ℕ
  pub compound_count : ℕ
  pub pending_withdrawals : Dict ℕ
  pub total_pending_withdrawals : ℕ
  pub delegation_contract : Option Address
  pub scheduler_address : Option Address
  pub dex_pair_contract : Option Address
  pub swap_amount_per_execution : ℕ
  pub max_slippage_bps : ℕ
  pub nft_contract : Option Address
  pub mint_price : ℕ
  pub mint_endpoint_name : List ℕ
  pub paused : Bool
  pub account : Account

unfoldable pub init : Address → Address → State → State
init delegation_contract scheduler_address s = record s {
  delegation_contract = some delegation_contract;
  scheduler_address = some scheduler_address;
  total_deposited = 0;
  total_compounded = 0;
  compound_count = 0;
  max_slippage_bps = 300;
  paused = false;
}

unfoldable pub upgrade : State → State
upgrade s = s

abbrev pub require_not_paused : State → Result (Unit {0})
require_not_paused s = guard (not s.paused) contract_paused

unfoldable pub pause : Ctx → State → Result State
pause c s = do require_owner c; ok (record s { paused = true })

unfoldable pub unpause : Ctx → State → Result State
unpause c s = do require_owner c; ok (record s { paused = false })

abbrev pub require_scheduler_caller : Ctx → State → Result (Unit {0})
require_scheduler_caller c s = do
  scheduler ← or_abort s.scheduler_address decode_error
  guard (c.caller == scheduler) not_authorized

-- What the balance holds beyond the withdrawals that are due.
abbrev pub safe_liquid : State → ℕ
safe_liquid s =
    if ltb s.total_pending_withdrawals s.account.balance
    then s.account.balance - s.total_pending_withdrawals
    else 0

unfoldable pub rescue_yield : Ctx → ℕ → State → Result State
rescue_yield c amount s = do
  require_owner c
  guard (leb amount (safe_liquid s)) exceeds_safe_liquid
  account ← direct_egld c.caller amount s.account
  ok (record s { account = account })

unfoldable pub set_scheduler_address : Ctx → Address → State → Result State
set_scheduler_address c addr s = do require_owner c; ok (record s { scheduler_address = some addr })

unfoldable pub set_delegation_contract : Ctx → Address → State → Result State
set_delegation_contract c addr s = do
  require_owner c
  ok (record s { delegation_contract = some addr })

unfoldable pub set_dex_pair_contract : Ctx → Address → State → Result State
set_dex_pair_contract c addr s = do require_owner c; ok (record s { dex_pair_contract = some addr })

unfoldable pub set_swap_amount : Ctx → ℕ → State → Result State
set_swap_amount c amount s = do
  require_owner c
  ok (record s { swap_amount_per_execution = amount })

unfoldable pub set_nft_contract : Ctx → Address → State → Result State
set_nft_contract c addr s = do require_owner c; ok (record s { nft_contract = some addr })

unfoldable pub set_mint_price : Ctx → ℕ → State → Result State
set_mint_price c price s = do require_owner c; ok (record s { mint_price = price })

unfoldable pub set_mint_endpoint : Ctx → List ℕ → State → Result State
set_mint_endpoint c endpoint s = do require_owner c; ok (record s { mint_endpoint_name = endpoint })

unfoldable pub set_max_slippage_bps : Ctx → ℕ → State → Result State
set_max_slippage_bps c bps s = do
  require_owner c
  guard (leb bps 5000) slippage_above_50
  ok (record s { max_slippage_bps = bps })

unfoldable get_user_balance : Address → State → ℕ
get_user_balance user s = read user s.user_balance
