-- ===== src/Keeper/Drips.antt =====
-- xcron-keeper-rs/src/drip_funder.rs: the daily limit of drips, and the activation of a stealth address.
-- What the network answers is a parameter; times are seconds, amounts are wei, and an arithmetic
-- overflow wraps, as in a release build. The waiting for a block, and the sweep, whose outcome the
-- sessions take, keep no state.
use xcron_protocol.Prelude.{
  ℕ, ◌+◌, ◌-◌, Bool, true, false, not, ◌&&◌, ◌||◌, leb, ltb, ◌==◌, if◌then◌else◌,
}
use xcron_protocol.Prelude.Decimal.{Text, parse_u128, or_zero}
use xcron_protocol.Framework.{u64}
use xcron_protocol.Keeper.Sessions.{u128}

pub record DripFunder : Type 0 where
  pub activation_amount : Text
  pub min_threshold : ℕ
  pub max_daily_drip_cap : ℕ
  pub daily_accumulator : ℕ
  pub last_reset_timestamp : ℕ

-- `DripFunder::new`; the threshold is a float in EGLD, which the code converts.
unfoldable pub new_funder : Text → ℕ → DripFunder
new_funder activation threshold = record {
  activation_amount = activation;
  min_threshold = threshold;
  max_daily_drip_cap = 10000000000000000000;
  daily_accumulator = 0;
  last_reset_timestamp = 0;
}

abbrev pub window_elapsed : ℕ → DripFunder → Bool
window_elapsed now f =
    (f.last_reset_timestamp == 0) || leb (u64 (f.last_reset_timestamp + 86400)) now

-- The first block of `check_and_increment_drip`.
unfoldable pub reset_window : ℕ → DripFunder → DripFunder
reset_window now f =
    if window_elapsed now f
    then record f { daily_accumulator = 0; last_reset_timestamp = now }
    else f

-- Whether the drip is approved; a window that was reset stays so when it is not.
unfoldable pub check_and_increment_drip : ℕ → ℕ → DripFunder → Bool × DripFunder
unfolding reset_window
check_and_increment_drip now amount f =
    let r = reset_window now f in
    if leb (u128 (r.daily_accumulator + amount)) r.max_daily_drip_cap
    then (true, record r { daily_accumulator = u128 (r.daily_accumulator + amount) })
    else (false, r)

-- What the gateway answers for the stealth address.
pub data AccountReply : Type 0 where
  account : (balance : Text) → (nonce : ℕ) → AccountReply
  unreadable not_found other_status unreachable : AccountReply

-- What the network does in one call: the account, and whether the nonce is fetched, the transfer
-- signed and broadcast.
pub record Network : Type 0 where
  pub reply : AccountReply
  pub nonce_fetched : Bool
  pub signed : Bool
  pub broadcast : Bool

unfoldable pub is_fresh : DripFunder → AccountReply → Bool
is_fresh f (account balance nonce) =
    ltb (or_zero (parse_u128 balance)) f.min_threshold && (nonce == 0)
is_fresh f unreadable = false
is_fresh f not_found = true
is_fresh f other_status = false
is_fresh f unreachable = true

pub data Activation : Type 0 where
  skipped funded : Activation
  cap_reached nonce_failed sign_failed broadcast_failed : Activation

-- `activation_amount.parse::<u128>().unwrap_or(0)`
unfoldable pub drip_amount : DripFunder → ℕ
drip_amount f = or_zero (parse_u128 f.activation_amount)

-- `Revert daily accumulator on broadcast failure`
unfoldable pub revert_drip : ℕ → DripFunder → DripFunder
revert_drip amount f =
    if leb amount f.daily_accumulator
    then record f { daily_accumulator = f.daily_accumulator - amount }
    else f

-- What follows the approval.
unfoldable pub transfer_drip : Network → ℕ → DripFunder → Activation × DripFunder
unfolding revert_drip
transfer_drip n amount f =
    if not n.nonce_fetched
    then (nonce_failed, f)
    else if not n.signed
    then (sign_failed, f)
    else if n.broadcast
    then (funded, f)
    else (broadcast_failed, revert_drip amount f)

unfoldable pub fund_if_approved : Network → ℕ → Bool × DripFunder → Activation × DripFunder
unfolding transfer_drip
fund_if_approved n amount r = if r.0 then transfer_drip n amount r.1 else (cap_reached, r.1)

unfoldable pub ensure_stealth_activated : ℕ → Network → DripFunder → Activation × DripFunder
unfolding is_fresh check_and_increment_drip fund_if_approved drip_amount
ensure_stealth_activated now n f =
    if is_fresh f n.reply
    then fund_if_approved n (drip_amount f) (check_and_increment_drip now (drip_amount f) f)
    else (skipped, f)
