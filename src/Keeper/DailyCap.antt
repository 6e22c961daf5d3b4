-- ===== src/Keeper/DailyCap.antt =====
-- The daily limit of xcron-keeper-rs/src/drip_funder.rs.
use xcron_protocol.Prelude.{ℕ, ◌+◌, ◌^◌, ◌≤◌, ◌<◌, ◌≡◌, refl, true, false, List, [], ◌∷◌, arith}
use xcron_protocol.Keeper.Drips.{
  DripFunder, Network, Activation, funded, nonce_failed, window_elapsed, reset_window,
  check_and_increment_drip, is_fresh, drip_amount, revert_drip, transfer_drip, fund_if_approved,
  ensure_stealth_activated,
}

-- The drips that leave the wallet, and the funder after them, in a sequence of calls.
abbrev sent : Activation → ℕ → ℕ
sent funded amount = amount
sent _ amount = 0

unfoldable pub total_sent : List (ℕ × Network) → DripFunder → ℕ
total_sent [] f = 0
total_sent ((now, n) ∷ calls) f =
    let r = ensure_stealth_activated now n f in sent r.0 (drip_amount f) + total_sent calls r.1

-- All the calls fall into the window that is running.
abbrev pub IsInWindow : DripFunder → List (ℕ × Network) → Type 0
IsInWindow f [] = Unit
IsInWindow f ((now, n) ∷ calls) = (window_elapsed now f ≡ false) × IsInWindow f calls

-- One call in the window: what it sends fits between the accumulators before and after it.
activated_fits :
    (now : ℕ) (n : Network) (f : DripFunder)
    → window_elapsed now f ≡ false
    → f.max_daily_drip_cap + drip_amount f < 2 ^ 128
    → f.daily_accumulator ≤ f.max_daily_drip_cap
    → let r = ensure_stealth_activated now n f in
      (sent r.0 (drip_amount f) + f.daily_accumulator ≤ r.1.daily_accumulator)
      × (r.1.daily_accumulator ≤ f.max_daily_drip_cap)
      × (r.1.max_daily_drip_cap ≡ f.max_daily_drip_cap)
      × (r.1.last_reset_timestamp ≡ f.last_reset_timestamp)
      × (r.1.activation_amount ≡ f.activation_amount)
unfolding ensure_stealth_activated fund_if_approved transfer_drip revert_drip
    check_and_increment_drip reset_window
activated_fits now n f w small h = ground arith

IsInWindow-same :
    (f g : DripFunder) (calls : List (ℕ × Network))
    → g.last_reset_timestamp ≡ f.last_reset_timestamp
    → IsInWindow f calls
    → IsInWindow g calls
IsInWindow-same f g [] e h = tt
IsInWindow-same f g ((now, n) ∷ calls) e h = (rw e h.0, IsInWindow-same f g calls e h.1)

drip_amount-same :
    (f g : DripFunder) → g.activation_amount ≡ f.activation_amount → drip_amount g ≡ drip_amount f
unfolding drip_amount
drip_amount-same f g e = rw e refl

-- Within one window of 24 hours the drips that are sent, however many calls there are and whatever
-- the network answers to them, stay at or below the daily limit, less what the accumulator held
-- before.
pub total_sent_within :
    (calls : List (ℕ × Network)) (f : DripFunder)
    → IsInWindow f calls
    → f.max_daily_drip_cap + drip_amount f < 2 ^ 128
    → f.daily_accumulator ≤ f.max_daily_drip_cap
    → total_sent calls f + f.daily_accumulator ≤ f.max_daily_drip_cap
unfolding total_sent
total_sent_within [] f w small h = omega arith
total_sent_within ((now, n) ∷ calls) f w small h =
    let g : DripFunder = (ensure_stealth_activated now n f).1 in
    let one = activated_fits now n f w.0 small h in
    let same = drip_amount-same f g one.4 in
    let rest =
      total_sent_within calls g (IsInWindow-same f g calls one.3 w.1)
        (omega (arith, small, one.2, same)) (omega (arith, one.1, one.2)) in
    omega (arith, one.0, one.2, rest)

-- A call whose nonce cannot be fetched sends nothing, and yet its drip stays in the accumulator: only
-- a failed broadcast is reverted. Repeated, such failures use up the day's limit.
pub nonce_failure_keeps_drip :
    (now : ℕ) (n : Network) (f : DripFunder)
    → is_fresh f n.reply ≡ true
    → window_elapsed now f ≡ false
    → n.nonce_fetched ≡ false
    → f.daily_accumulator + drip_amount f ≤ f.max_daily_drip_cap
    → f.max_daily_drip_cap < 2 ^ 128
    → let r = ensure_stealth_activated now n f in
      (r.0 ≡ nonce_failed) × (r.1.daily_accumulator ≡ f.daily_accumulator + drip_amount f)
unfolding ensure_stealth_activated fund_if_approved transfer_drip check_and_increment_drip
    reset_window
nonce_failure_keeps_drip now n f fresh w failed h cap = ground (arith, fresh, w, failed)
