-- ===== src/Shield/Contract.antt =====
-- contracts/xcron-agent-shield/escrow/src/lib.rs
use xcron_protocol.Prelude.{
  ℕ, ◌+◌, ◌-◌, ◌/◌, Bool, true, false, not, ◌&&◌, Option, some, List, [], ◌∷◌, leb, ltb, ◌==◌,
  if◌then◌else◌, Dict, insert, read, codes, is_one_of,
}
use xcron_protocol.Framework.{
  Result, ok, err, after, ◌>>=◌, ◌>>◌, guard, or_abort, Address, TokenId, Ctx, Account,
  require_owner, non_payable, receive, emit, send_esdt, async_call, decode_error,
  insufficient_funds, shield_paused, invalid_token, only_agent, raw_transfer_prohibited,
  token_not_authorized, threshold_exceeded, target_is_shield,
}

pub record State : Type 0 where
  pub validation_contract_address : Option Address
  pub identity_contract_address : Option Address
  pub authorized_agent : Option Address
  pub is_paused : Bool
  pub shield_daily_limit : Dict ℕ
  pub daily_spent : TokenId → ℕ → ℕ
  pub tokens : Dict ℕ
  pub account : Account

unfoldable pub init : Address → Address → Address → State → State
init validation identity agent s = record s {
  validation_contract_address = some validation;
  identity_contract_address = some identity;
  authorized_agent = some agent;
  is_paused = false;
}

unfoldable pub upgrade : State → State
upgrade s = s

unfoldable pub set_shield_limit : Ctx → TokenId → ℕ → State → Result State
set_shield_limit c token max_daily_amount s = do
  require_owner c
  ok (record s { shield_daily_limit = insert token max_daily_amount s.shield_daily_limit })

unfoldable pub pause_shield : Ctx → State → Result State
pause_shield c s = do require_owner c; ok (record s { is_paused = true })

unfoldable pub unpause_shield : Ctx → State → Result State
unpause_shield c s = do require_owner c; ok (record s { is_paused = false })

abbrev credit : List (TokenId × ℕ) → Dict ℕ → Dict ℕ
credit [] d = d
credit ((t, n) ∷ ps) d = credit ps (insert t (read t d + n) d)

-- The payments that come with a call.
abbrev pub take_payments : Ctx → State → State
take_payments c s = record s { tokens = credit c.esdt s.tokens; account = receive c s.account }

unfoldable pub fund_treasury : Ctx → State → Result State
fund_treasury c s = ok (take_payments c s)

-- A value of `daily_spent`, replaced.
abbrev pub set_spent : TokenId → ℕ → ℕ → State → State
set_spent token day spent s = record s {
  daily_spent = λ t d. if t == token && d == day then spent else s.daily_spent t d;
}

-- A timestamp that looks like milliseconds is taken as such.
abbrev pub day_of : ℕ → ℕ
day_of raw_time = (if ltb 100000000000 raw_time then raw_time / 1000 else raw_time) / 86400

abbrev pub prohibited : List (List ℕ)
prohibited =
    codes "ESDTTransfer"
    ∷ codes "ESDTNFTTransfer"
    ∷ codes "MultiESDTNFTTransfer"
    ∷ codes "approve"
    ∷ codes "setLocalRoles"
    ∷ []

-- The tokens leave the shield with the call.
unfoldable pub spend_token : TokenId → ℕ → State → Result State
spend_token token amount s =
    if leb amount (read token s.tokens)
    then ok (record s { tokens = insert token (read token s.tokens - amount) s.tokens })
    else err insufficient_funds

-- The call of the target; a transfer goes with it if the amount is positive.
unfoldable pub forward : Address → TokenId → ℕ → List ℕ → List ℕ → State → Result State
unfolding spend_token
forward target token amount func_name args s =
    if ltb 0 amount
    then (do
      s1 ← spend_token token amount s
      ok (record s1 {
        account =
            emit (async_call target func_name args 0)
              (emit (send_esdt target token amount) s.account);
      }))
    else ok (record s { account = emit (async_call target func_name args 0) s.account })

-- The limit, the day's spending and the target. The write of `is_paused` before `sc_panic!` is undone
-- with the rest of the call.
unfoldable pub spend_within_limit :
    Ctx → Address → TokenId → ℕ → List ℕ → List ℕ → State → Result State
unfolding forward
spend_within_limit c target token amount func_name args s = do
  let limit = read token s.shield_daily_limit
  guard (not (limit == 0)) token_not_authorized
  let day = day_of c.timestamp
  let spent_today = s.daily_spent token day + amount
  guard (leb spent_today limit) threshold_exceeded
  guard (not (target == c.self_addr)) target_is_shield
  forward target token amount func_name args (set_spent token day spent_today s)

module _ (is_valid_esdt_identifier : TokenId → Bool) where
  -- Who proposes, and what.
  unfoldable pub require_proposal : Ctx → TokenId → List ℕ → State → Result (Unit {0})
  require_proposal c token func_name s = do
    non_payable c
    guard (not s.is_paused) shield_paused
    guard (is_valid_esdt_identifier token) invalid_token
    agent ← or_abort s.authorized_agent decode_error
    guard (c.caller == agent) only_agent
    guard (not (is_one_of func_name prohibited)) raw_transfer_prohibited

  unfoldable pub agent_propose_execution :
      Ctx → Address → TokenId → ℕ → List ℕ → List ℕ → State → Result State
  unfolding require_proposal spend_within_limit
  agent_propose_execution c target token amount func_name args s = do
    require_proposal c token func_name s
    spend_within_limit c target token amount func_name args s

-- What the failed call carried comes back with its callback.
unfoldable pub agent_execution_callback : Ctx → TokenId → ℕ → ℕ → Bool → State → Result State
agent_execution_callback c token day amount success s =
    let s1 = take_payments c s in
    let spent_today = s.daily_spent token day in
    if success
    then ok s1
    else (if leb amount spent_today
        then ok (set_spent token day (spent_today - amount) s1)
        else ok s1)

unfoldable pub emergency_withdraw : Ctx → TokenId → ℕ → State → Result State
unfolding spend_token
emergency_withdraw c token amount s = do
  require_owner c
  s1 ← spend_token token amount s
  ok (record s1 { account = emit (send_esdt c.caller token amount) s.account })

pub data Call : Type 0 where
  limit_call withdraw_call : (token : TokenId) (amount : ℕ) → Call
  pause_call unpause_call upgrade_call fund : Call
  propose : (target : Address) (token : TokenId) (amount : ℕ) (func_name args : List ℕ) → Call
  executed : (token : TokenId) (day amount : ℕ) (success : Bool) → Call

module _ (is_valid_esdt_identifier : TokenId → Bool) where
  unfoldable pub dispatch : Ctx → Call → State → Result State
  dispatch c (limit_call token amount) s = set_shield_limit c token amount s
  dispatch c (withdraw_call token amount) s = emergency_withdraw c token amount s
  dispatch c pause_call s = pause_shield c s
  dispatch c unpause_call s = unpause_shield c s
  dispatch c upgrade_call s = ok (upgrade s)
  dispatch c fund s = fund_treasury c s
  dispatch c (propose target token amount func_name args) s =
      agent_propose_execution is_valid_esdt_identifier c target token amount func_name args s
  dispatch c (executed token day amount success) s =
      agent_execution_callback c token day amount success s

  unfoldable pub run : List (Ctx × Call) → State → State
  run [] s = s
  run ((c, call) ∷ calls) s = run calls (after s (dispatch c call s))
