-- ===== src/Xse/Spending.antt =====
-- What the cycle of xse-protocol/src/main.rs spends.
use xcron_protocol.Prelude.{
  ℕ, ◌+◌, ◌*◌, ◌/◌, ◌^◌, ◌≤◌, ◌<◌, ◌≡◌, refl, ◌∙◌, true, false, Option, none, some, List, [], ◌∷◌,
  ◌++◌, map, arith, ◌==◌, codes, bytes_eq, length,
}
use native.Mathlib.Nat.{mul-div-le, lt-mul-div-succ}
use xcron_protocol.Prelude.Decimal.{Text, parse_u128-to_string}
use xcron_protocol.Prelude.Fallible.{failed, done, IsDone}
use xcron_protocol.Xse.Schema.{OrderIntent, ExecutionIntent, ExecutedOrder}
use xcron_protocol.Xse.Validator.{quote_amount, validate_intent}
use xcron_protocol.Xse.Enclave.{DecryptedApiKeys, decrypt_secrets}
use xcron_protocol.Xse.Cycle.{
  panicked, Buy, Run, strip_slashes, execute_reverse_dca, total_amount, assets, live_run,
  execute_intent, receipt_for, executed_orders, executed_order, encrypted_payload,
}

abbrev pub spent : List Buy → ℕ
spent [] = 0
spent ((asset, amount) ∷ buys) = amount + spent buys

-- The first buy, and what the receipt says of the first order.
abbrev pub first_amount : List Buy → ℕ
first_amount [] = 0
first_amount ((asset, amount) ∷ buys) = amount

abbrev pub first_executed : List ExecutedOrder → Option Text
first_executed [] = none
first_executed (x ∷ xs) = some x.executed_quote_amount_atomic

length-map_assets : {A B : Type 0} (f : A → B) (xs : List A) → length (map f xs) ≡ length xs
length-map_assets f [] = refl
length-map_assets f (x ∷ xs) = omega (arith, length-map_assets f xs)

spent-equal :
    (n : ℕ) (names : List Text)
    → spent (map (λ asset. (strip_slashes asset, n)) names) ≡ length names * n
spent-equal n [] = omega arith
spent-equal n (name ∷ names) = grind (arith, spent-equal n names)

-- Each of the orders' assets is bought, in their order, for the same amount.
abbrev pub BuysEach : ℕ → List OrderIntent → List Buy → Type 0
BuysEach amount [] [] = Unit
BuysEach amount (o ∷ os) ((asset, spent) ∷ buys) =
    (asset ≡ strip_slashes o.asset) × (spent ≡ amount) × BuysEach amount os buys
BuysEach amount _ _ = ⊥

-- The amount is divided evenly, and less than one unit for each asset is left.
abbrev IsSplit : ℕ → ℕ → List Buy → Type 0
IsSplit amount n buys = (length buys ≡ n) × (spent buys ≤ amount) × (amount < spent buys + n)

BuysEach-map :
    (n : ℕ) (os : List OrderIntent)
    → BuysEach n os (map (λ asset. (strip_slashes asset, n)) (map (λ o. o.asset) os))
BuysEach-map n [] = tt
BuysEach-map n (o ∷ os) = (refl, refl, BuysEach-map n os)

IsSplit-intro :
    (amount : ℕ) (names : List Text)
    → (length names == 0) ≡ false
    → IsSplit amount
        (length names)
        (map (λ asset. (strip_slashes asset, amount / length names)) names)
IsSplit-intro amount names h =
    let buys = spent-equal (amount / length names) names in
    let positive : 0 < length names = ground (arith, h) in
    (
      length-map_assets _ names,
      omega (arith, buys, mul-div-le amount (length names)),
      omega (arith, buys, lt-mul-div-succ amount positive),
    )

total_amount-lt : (os : List OrderIntent) → total_amount os < 2 ^ 128
unfolding total_amount
total_amount-lt [] = omega arith
total_amount-lt (o ∷ os) = omega arith

module _ (run : Run) (intent : ExecutionIntent)
    (accepted : validate_intent run.parse_utc run.now intent (some run.signature) ≡ done tt)
    (signed : run.verify_signature
        (codes "execute_task_" ++ intent.client_reference_id)
        run.signature
      ≡ true)
    (live : bytes_eq intent.mode (codes "dry_run") ≡ false) where
  -- An intent that is valid and signed, not in the mode `dry_run`, with at least one order and secrets
  -- that the enclave opens, is executed: each order's asset is bought, in the orders' order, all for
  -- the same amount, the total of the orders' maximum amounts divided by their number, and together
  -- the buys spend that total but for less than one atomic unit for each order.
  pub execute_intent_buys :
      {keys : DecryptedApiKeys}
      → decrypt_secrets run.enclave (encrypted_payload run) ≡ done keys
      → (length intent.orders == 0) ≡ false
      → IsDone
          (λ r.
            BuysEach (total_amount intent.orders / length intent.orders) intent.orders r.0
            × IsSplit (total_amount intent.orders) (length intent.orders) r.0)
          (execute_intent run intent)
  unfolding execute_intent live_run execute_reverse_dca
  execute_intent_buys opened some_orders =
      let n = length-map_assets (λ (o : OrderIntent). o.asset) intent.orders in
      let some_assets : (length (assets run intent) == 0) ≡ false = rw n some_orders in
      let total = total_amount intent.orders in
      let split = IsSplit-intro total (assets run intent) some_assets in
      let each = BuysEach-map (total / length intent.orders) intent.orders in
      rw
        (
          accepted,
          signed,
          live,
          some_assets,
          parse_u128-to_string total (total_amount-lt intent.orders),
          opened,
        )
        (rw n each, (split.0 ∙ n, split.1, omega (arith, n, split.2)))

  -- An intent with no orders passes the validator, and a live run of it panics.
  pub no_orders_panics : length intent.orders ≡ 0 → execute_intent run intent ≡ failed panicked
  unfolding execute_intent live_run
  no_orders_panics none_left =
      let n = length-map_assets (λ (o : OrderIntent). o.asset) intent.orders in
      ground (arith, accepted, signed, live, n, none_left)

  -- The even split ignores each order's own maximum: of two orders whose amounts differ by two or more,
  -- the smaller buys more than its maximum, while the receipt says that it bought the maximum.
  pub split_exceeds_maximum :
      {keys : DecryptedApiKeys} (o o' : OrderIntent)
      → decrypt_secrets run.enclave (encrypted_payload run) ≡ done keys
      → intent.orders ≡ o ∷ o' ∷ []
      → quote_amount o + 2 ≤ quote_amount o'
      → quote_amount o + quote_amount o' < 2 ^ 128
      → IsDone
          (λ r.
            (quote_amount o < first_amount r.0)
            × (first_executed r.1.orders ≡ some o.max_quote_amount_atomic))
          (execute_intent run intent)
  unfolding execute_intent live_run execute_reverse_dca total_amount receipt_for executed_orders
      executed_order
  split_exceeds_maximum o o' opened two apart small =
      let sum = quote_amount o + quote_amount o' in
      let total : total_amount intent.orders ≡ sum = rw two (omega (arith, small)) in
      let digits = parse_u128-to_string sum (omega arith) in
      let more : quote_amount o < sum / 2 = omega arith in
      rw (accepted, signed, live, total, two, digits, opened) (more, refl)
