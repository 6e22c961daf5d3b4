-- ===== src/Prelude/Fallible.antt =====
-- Outcomes of the off-chain services, whose functions return `Result<T, E>` with an `E` of their own.
use mathlib.Core.Path.{◌≡◌, refl}
use mathlib.Core.Logic.{◌⊎◌, inl, inr}
use mathlib.Core.Bool.{Bool, true, false}
use mathlib.Core.Option.{Option, none, some}

pub data Fallible {ℓ κ} (E : Type ℓ) (A : Type κ) : Type (ℓ ⊔ κ) where
  failed : E → Fallible E A
  done : A → Fallible E A

infixl 5 ◌>>=◌ ◌>>◌
-- `?`: the first error returns.
abbrev pub ◌>>=◌ {ℓ κ μ} :
    {E : Type ℓ} {A : Type κ} {B : Type μ} → Fallible E A → (A → Fallible E B) → Fallible E B
failed e >>= next = failed e
done a >>= next = next a

-- `if !test { return Err(e); }`
abbrev pub check {ℓ} : {E : Type ℓ} → Bool → E → Fallible E (Unit {0})
check true e = done tt
check false e = failed e

abbrev pub ◌>>◌ {ℓ κ} :
    {E : Type ℓ} {B : Type κ} → Fallible E (Unit {0}) → Fallible E B → Fallible E B
first >> next = first >>= λ _. next

-- `ok_or`, and `map_err` on a call that gives nothing else of its error away.
abbrev pub or_fail {ℓ κ} : {E : Type ℓ} {A : Type κ} → Option A → E → Fallible E A
or_fail none e = failed e
or_fail (some a) e = done a

-- What holds of the result, if there is one; and that there is one, of which it holds.
abbrev pub IfDone {ℓ κ} : {E : Type ℓ} {A : Type κ} → (A → Type 0) → Fallible E A → Type 0
IfDone P (failed e) = Unit
IfDone P (done a) = P a

abbrev pub IsDone {ℓ κ} : {E : Type ℓ} {A : Type κ} → (A → Type 0) → Fallible E A → Type 0
IsDone P (failed e) = ⊥
IsDone P (done a) = P a

pub IfDone-done {ℓ κ} :
    {E : Type ℓ} {A : Type κ} (P : A → Type 0) (r : Fallible E A) {a : A}
    → IfDone P r
    → r ≡ done a
    → P a
IfDone-done P r h e = rw e at h

pub Fallible-cases {ℓ κ} :
    {E : Type ℓ} {A : Type κ} (r : Fallible E A)
    → ((e : E) × (r ≡ failed e)) ⊎ ((a : A) × (r ≡ done a))
Fallible-cases (failed e) = inl (e, refl)
Fallible-cases (done a) = inr (a, refl)

abbrev pub is_done {ℓ κ} : {E : Type ℓ} {A : Type κ} → Fallible E A → Bool
is_done (failed e) = false
is_done (done a) = true

-- A check that fails leaves nothing to show.
pub IfDone-check {ℓ κ} :
    {E : Type ℓ} {A : Type κ} (P : A → Type 0) (b : Bool) (e : E) (r : Fallible E A)
    → IfDone P r
    → IfDone P (check b e >> r)
IfDone-check P true e r h = h
IfDone-check P false e r h = tt

-- To show what holds of a result with the equation that names it.
pub IfDone-intro {ℓ κ} :
    {E : Type ℓ} {A : Type κ} (P : A → Type 0) (r : Fallible E A)
    → ((a : A) → r ≡ done a → P a)
    → IfDone P r
IfDone-intro P (failed e) k = tt
IfDone-intro P (done a) k = k a refl
