-- ===== src/Xse/Batches.antt =====
-- What xse-protocol/src/validator.rs answers to a batch.
use xcron_protocol.Prelude.{
  ℕ, ◌+◌, ◌≤◌, ◌<◌, ◌≡◌, refl, inl, inr, Bool, true, false, not, Option, List, [], ◌∷◌, arith, leb,
  ◌==◌, if◌then◌else◌, bytes_eq, length, Bool-cases,
}
use xcron_protocol.Prelude.Decimal.{Text}
use xcron_protocol.Prelude.Fallible.{
  Fallible, failed, done, IfDone, IfDone-done, IfDone-check, IfDone-intro, is_done,
}
use xcron_protocol.Xse.Schema.{ExecutionIntent, BatchExecutionIntent}
use xcron_protocol.Xse.Validator.{
  ValidationError, validate_intent, signature_at, collect, validate_from, validate_batch,
  max_batch_size,
}

abbrev pub has_index : ℕ → List ℕ → Bool
has_index i [] = false
has_index i (j ∷ js) = if i == j then true else has_index i js

-- One step of the loop adds its own index, if the intent is valid.
collect-Selected :
    (atomic : Bool) (start : ℕ) (r : Fallible ValidationError (Unit {0}))
    (rest : Fallible (ℕ × ValidationError) (List ℕ)) (f : ℕ → Bool)
    → f start ≡ false
    → IfDone (λ ixs. (i : ℕ) → has_index i ixs ≡ f i) rest
    → IfDone
        (λ ixs. (i : ℕ) → has_index i ixs ≡ (if i == start then is_done r else f i))
        (collect atomic start r rest)
unfolding collect
collect-Selected atomic start (done u) (done ixs) f e h = λ i. ground (arith, h i)
collect-Selected atomic start (done u) (failed d) f e h = tt
collect-Selected true start (failed d) rest f e h = tt
collect-Selected false start (failed d) (failed d') f e h = tt
collect-Selected false start (failed d) (done ixs) f e h = λ i. ground (arith, h i, e)

-- An atomic batch goes on only after a valid intent; another always does.
collect_atomic :
    (start : ℕ) (r : Fallible ValidationError (Unit {0}))
    (rest : Fallible (ℕ × ValidationError) (List ℕ)) (Q P : Type 0)
    → IfDone (λ _. Q) rest
    → (is_done r ≡ true → Q → P)
    → IfDone (λ _. P) (collect true start r rest)
unfolding collect
collect_atomic start (done u) (done ixs) Q P q k = k refl q
collect_atomic start (done u) (failed d) Q P q k = tt
collect_atomic start (failed d) rest Q P q k = tt

collect_lenient :
    (start : ℕ) (r : Fallible ValidationError (Unit {0}))
    (rest : Fallible (ℕ × ValidationError) (List ℕ))
    → is_done rest ≡ true
    → is_done (collect false start r rest) ≡ true
unfolding collect
collect_lenient start (done u) (done ixs) h = refl
collect_lenient start (done u) (failed d) h = cc
collect_lenient start (failed d) rest h = h

constant_holds :
    (Q : Type 0) (rest : Fallible (ℕ × ValidationError) (List ℕ)) → Q → IfDone (λ _. Q) rest
constant_holds Q (done ixs) q = q
constant_holds Q (failed d) q = tt

module _ (parse_utc : Text → Option ℕ) (now : ℕ) (signatures : List (Option Text)) where
  -- Whether the validator accepts the intent at a position of a list that begins at `start`.
  abbrev pub accepted_from : ℕ → List ExecutionIntent → ℕ → Bool
  accepted_from start [] i = false
  accepted_from start (x ∷ xs) i =
      if i == start
      then is_done (validate_intent parse_utc now x (signature_at start signatures))
      else accepted_from (start + 1) xs i

  accepted_from_before :
      (start : ℕ) (xs : List ExecutionIntent) (i : ℕ) → i < start → accepted_from start xs i ≡ false
  accepted_from_before start [] i h = refl
  accepted_from_before start (x ∷ xs) i h =
      ground (arith, accepted_from_before (start + 1) xs i (omega arith))

  -- The indices that the loop returns are those of the intents that it accepts.
  abbrev Selects : ℕ → List ExecutionIntent → List ℕ → Type 0
  Selects start xs ixs = (i : ℕ) → has_index i ixs ≡ accepted_from start xs i

  validate_from-Selects :
      (atomic : Bool) (start : ℕ) (xs : List ExecutionIntent)
      → IfDone (Selects start xs) (validate_from parse_utc now atomic signatures start xs)
  unfolding validate_from
  validate_from-Selects atomic start [] = λ i. refl
  validate_from-Selects atomic start (x ∷ xs) =
      collect-Selected atomic start
        (validate_intent parse_utc now x (signature_at start signatures))
        (validate_from parse_utc now atomic signatures (start + 1) xs)
        (accepted_from (start + 1) xs) (accepted_from_before (start + 1) xs start (omega arith))
        (validate_from-Selects atomic (start + 1) xs)

  -- All positions are accepted, if an atomic batch is.
  validate_from_atomic :
      (start : ℕ) (xs : List ExecutionIntent) (i : ℕ)
      → start ≤ i
      → i < start + length xs
      → IfDone
          (λ _. accepted_from start xs i ≡ true)
          (validate_from parse_utc now true signatures start xs)
  unfolding validate_from
  validate_from_atomic start [] i h k = absurd (omega arith)
  validate_from_atomic start (x ∷ xs) i h k =
      let r = validate_intent parse_utc now x (signature_at start signatures) in
      let rest = validate_from parse_utc now true signatures (start + 1) xs in
      elim (Bool-cases (i == start)) [
        | inl e ↦
            collect_atomic start r rest Unit (accepted_from start (x ∷ xs) i ≡ true)
              (constant_holds Unit rest tt) (λ d q. ground (arith, e, d))
        | inr e ↦
            collect_atomic start r rest (accepted_from (start + 1) xs i ≡ true)
              (accepted_from start (x ∷ xs) i ≡ true)
              (validate_from_atomic (start + 1) xs i (ground (arith, e)) (ground (arith, k)))
              (λ d q. ground (arith, e, q))
      ]

  -- A batch that is not atomic is never refused for one of its intents.
  validate_from_lenient :
      (start : ℕ) (xs : List ExecutionIntent)
      → is_done (validate_from parse_utc now false signatures start xs) ≡ true
  unfolding validate_from
  validate_from_lenient start [] = refl
  validate_from_lenient start (x ∷ xs) =
      collect_lenient start (validate_intent parse_utc now x (signature_at start signatures))
        (validate_from parse_utc now false signatures (start + 1) xs)
        (validate_from_lenient (start + 1) xs)

  validate_from_selects :
      (atomic : Bool) (xs : List ExecutionIntent)
      → IfDone
          (λ ixs.
            ((i : ℕ) → has_index i ixs ≡ accepted_from 0 xs i)
            × (atomic ≡ true → (i : ℕ) → i < length xs → accepted_from 0 xs i ≡ true))
          (validate_from parse_utc now atomic signatures 0 xs)
  validate_from_selects atomic xs =
      IfDone-intro _ (validate_from parse_utc now atomic signatures 0 xs) (λ ixs e. (
        IfDone-done (Selects 0 xs) (validate_from parse_utc now atomic signatures 0 xs)
            (validate_from-Selects atomic 0 xs) e,
        λ t i h.
            IfDone-done (λ _. accepted_from 0 xs i ≡ true)
              (validate_from parse_utc now true signatures 0 xs)
              (validate_from_atomic 0 xs i (omega arith) (omega arith)) (rw t at e),
      ))

  -- What a batch is answered with holds the positions of the intents that the validator accepts, and
  -- no other; an atomic batch is answered only if they are all accepted. A batch that has an id, at
  -- most 50 intents and is not atomic is always answered.
  pub validate_batch_selects :
      (batch : BatchExecutionIntent)
      → IfDone
          (λ ixs.
            ((i : ℕ) → has_index i ixs ≡ accepted_from 0 batch.intents i)
            × (batch.atomic ≡ true
                → (i : ℕ) → i < length batch.intents
                → accepted_from 0 batch.intents i ≡ true))
          (validate_batch parse_utc now batch signatures)
        × (batch.atomic ≡ false
            → bytes_eq batch.batch_id [] ≡ false
            → length batch.intents ≤ 50
            → is_done (validate_batch parse_utc now batch signatures) ≡ true)
  unfolding validate_batch
  validate_batch_selects batch = (
    IfDone-check _ (not (bytes_eq batch.batch_id [])) _ _ (
        IfDone-check _ (leb (length batch.intents) max_batch_size) _ _
          (validate_from_selects batch.atomic batch.intents)),
    λ a b c. ground (arith, a, b, c, validate_from_lenient 0 batch.intents),
  )
