-- ===== src/Prelude/Maps.antt =====
-- Keyed storage as an association list: one entry for each key that holds a value, and the sum of
-- a measure over the entries, which the accounting of the contracts is stated with.
use Prim.Native.Nat.{ℕ, ◌+◌, ◌≤◌}
use mathlib.Core.Path.{◌≡◌, refl}
use mathlib.Core.Option.{Option, none, some}
use mathlib.Core.List.{List, [], ◌∷◌}
use native.Mathlib.Omega.{arith}
use xcron_protocol.Prelude.Tests.{◌==◌, if◌then◌else◌}

abbrev pub Dict {ℓ} : Type ℓ → Type ℓ
Dict V = List (ℕ × V)

module _ {ℓ} {V : Type ℓ} where
  abbrev pub lookup : ℕ → Dict V → Option V
  lookup k [] = none
  lookup k ((j, v) ∷ d) = if j == k then some v else lookup k d

  abbrev pub insert : ℕ → V → Dict V → Dict V
  insert k v [] = (k, v) ∷ []
  insert k v ((j, w) ∷ d) = if j == k then (k, v) ∷ d else (j, w) ∷ insert k v d

  -- Every entry of the key goes.
  abbrev pub erase : ℕ → Dict V → Dict V
  erase k [] = []
  erase k ((j, w) ∷ d) = let rest = erase k d in if j == k then rest else (j, w) ∷ rest

  pub lookup-insert :
      (k j : ℕ) (v : V) (d : Dict V)
      → lookup j (insert k v d) ≡ (if k == j then some v else lookup j d)
  lookup-insert k j v [] = refl
  lookup-insert k j v (e ∷ d) = ground (arith, lookup-insert k j v d)

  pub lookup-erase :
      (k j : ℕ) (d : Dict V) → lookup j (erase k d) ≡ (if k == j then none else lookup j d)
  lookup-erase k j [] = ground arith
  lookup-erase k j (e ∷ d) = ground (arith, lookup-erase k j d)

  -- No key has two entries.
  abbrev pub Distinct : Dict V → Type ℓ
  Distinct [] = Unit {ℓ}
  Distinct ((k, v) ∷ d) = (lookup k d ≡ none) × Distinct d

  pub Distinct-insert : (k : ℕ) (v : V) (d : Dict V) → Distinct d → Distinct (insert k v d)
  Distinct-insert k v [] h = (refl, tt)
  Distinct-insert k v (e ∷ d) h = ground (arith, Distinct-insert k v d h.1, lookup-insert k e.0 v d)

  pub Distinct-erase : (k : ℕ) (d : Dict V) → Distinct d → Distinct (erase k d)
  Distinct-erase k [] h = h
  Distinct-erase k (e ∷ d) h = ground (arith, Distinct-erase k d h.1, lookup-erase k e.0 d)

  pub erase-none : (k : ℕ) (d : Dict V) → lookup k d ≡ none → erase k d ≡ d
  erase-none k [] h = refl
  erase-none k (e ∷ d) h = ground (arith, erase-none k d)

  -- Every value has the property.
  abbrev pub AllValues : (V → Type 0) → Dict V → Type 0
  AllValues P [] = Unit
  AllValues P ((k, v) ∷ d) = P v × AllValues P d

  pub AllValues-insert :
      (P : V → Type 0) (k : ℕ) (v : V) (d : Dict V)
      → P v
      → AllValues P d
      → AllValues P (insert k v d)
  AllValues-insert P k v [] p h = (p, tt)
  AllValues-insert P k v (e ∷ d) p h = ground (arith, AllValues-insert P k v d p h.1)

  pub AllValues-erase :
      (P : V → Type 0) (k : ℕ) (d : Dict V) → AllValues P d → AllValues P (erase k d)
  AllValues-erase P k [] h = tt
  AllValues-erase P k (e ∷ d) h = ground (arith, AllValues-erase P k d h.1)

  pub AllValues-lookup :
      (P : V → Type 0) (k : ℕ) (v : V) (d : Dict V) → AllValues P d → lookup k d ≡ some v → P v
  AllValues-lookup P k v [] h e = ground (arith, e)
  AllValues-lookup P k v (x ∷ d) h e = ground (arith, e, AllValues-lookup P k v d h.1)

  -- The sum of a measure over the entries, and what one key adds to it.
  abbrev pub total : (V → ℕ) → Dict V → ℕ
  total f [] = 0
  total f ((k, v) ∷ d) = f v + total f d

  abbrev pub share : (V → ℕ) → Option V → ℕ
  share f none = 0
  share f (some v) = f v

  pub total-insert :
      (f : V → ℕ) (k : ℕ) (v : V) (d : Dict V)
      → total f (insert k v d) + share f (lookup k d) ≡ total f d + f v
  total-insert f k v [] = omega arith
  total-insert f k v (e ∷ d) = ground (arith, total-insert f k v d)

  pub total-erase :
      (f : V → ℕ) (k : ℕ) (d : Dict V)
      → Distinct d
      → total f (erase k d) + share f (lookup k d) ≡ total f d
  total-erase f k [] h = omega arith
  total-erase f k (e ∷ d) h = ground (arith, total-erase f k d h.1, erase-none k d)

  pub share-le-total : (f : V → ℕ) (k : ℕ) (d : Dict V) → share f (lookup k d) ≤ total f d
  share-le-total f k [] = omega arith
  share-le-total f k (e ∷ d) = ground (arith, share-le-total f k d)

-- A number in storage: zero is stored as the empty buffer, so a slot that was never written reads 0.
abbrev pub read : ℕ → Dict ℕ → ℕ
read k d = elim (lookup k d) [ none ↦ 0 | some n ↦ n ]

-- The entry of a keyed set, or the empty one.
abbrev pub read_or {ℓ} : {V : Type ℓ} → V → ℕ → Dict V → V
read_or z k d = elim (lookup k d) [ none ↦ z | some v ↦ v ]

pub read-insert :
    (k j n : ℕ) (d : Dict ℕ) → read j (insert k n d) ≡ (if k == j then n else read j d)
read-insert k j n d = ground (arith, lookup-insert k j n d)

pub read-erase : (k j : ℕ) (d : Dict ℕ) → read j (erase k d) ≡ (if k == j then 0 else read j d)
read-erase k j d = ground (arith, lookup-erase k j d)

abbrev pub id_ℕ : ℕ → ℕ
id_ℕ n = n

pub read-share : (k : ℕ) (d : Dict ℕ) → share id_ℕ (lookup k d) ≡ read k d
read-share k d = ground arith
