-- ===== src/Framework/Storage.antt =====
-- The collections that the contracts keep in storage, as interfaces: the operations that the code
-- calls and the documented laws that its correctness rests on.
use xcron_protocol.Prelude.{
  ℕ, ◌+◌, ◌-◌, ◌≡◌, Bool, true, false, Option, none, some, ◌==◌, if◌then◌else◌, List, length,
}

-- `UnorderedSetMapper` of 32-byte values (addresses, task hashes).
pub record SetMapper (S : Type 0) : Type 0 where
  pub empty_set : S
  pub contains : ℕ → S → Bool
  pub insert_item : ℕ → S → S
  pub swap_remove : ℕ → S → S
  pub len : S → ℕ
  pub contains-empty : (a : ℕ) → contains a empty_set ≡ false
  pub contains-insert :
      (a b : ℕ) (s : S) → contains b (insert_item a s) ≡ (if a == b then true else contains b s)
  pub contains-swap_remove :
      (a b : ℕ) (s : S) → contains b (swap_remove a s) ≡ (if a == b then false else contains b s)
  pub len-empty : len empty_set ≡ 0
  pub len-insert :
      (a : ℕ) (s : S) → len (insert_item a s) ≡ (if contains a s then len s else len s + 1)
  pub len-swap_remove :
      (a : ℕ) (s : S) → len (swap_remove a s) ≡ (if contains a s then len s - 1 else len s)

-- `VecMapper` of addresses. Indices count from 1; `get_item` of a slot that holds nothing is `none`,
-- where the framework aborts. `clear_entry` empties a slot and leaves the length alone.
pub record VecMapper (V : Type 0) : Type 0 where
  pub empty_vec : V
  pub vec_len : V → ℕ
  pub get_item : ℕ → V → Option ℕ
  pub push : ℕ → V → V
  pub set_item : ℕ → ℕ → V → V
  pub clear_entry : ℕ → V → V
  pub vec_len-empty : vec_len empty_vec ≡ 0
  pub vec_len-push : (a : ℕ) (v : V) → vec_len (push a v) ≡ vec_len v + 1
  pub vec_len-set : (i a : ℕ) (v : V) → vec_len (set_item i a v) ≡ vec_len v
  pub vec_len-clear : (i : ℕ) (v : V) → vec_len (clear_entry i v) ≡ vec_len v
  pub get_item-push :
      (i a : ℕ) (v : V)
      → get_item i (push a v) ≡ (if i == vec_len v + 1 then some a else get_item i v)
  pub get_item-set :
      (i j a : ℕ) (v : V) → get_item j (set_item i a v) ≡ (if i == j then some a else get_item j v)
  pub get_item-clear :
      (i j : ℕ) (v : V) → get_item j (clear_entry i v) ≡ (if i == j then none else get_item j v)

-- The operations, at the instance that is in scope.
module _ {S : Type 0} ⦃m : SetMapper S⦄ where
  abbrev pub contains : ℕ → S → Bool
  contains = m.contains

  abbrev pub insert_item : ℕ → S → S
  insert_item = m.insert_item

  abbrev pub swap_remove : ℕ → S → S
  swap_remove = m.swap_remove

  abbrev pub len : S → ℕ
  len = m.len

-- `iter` of an `UnorderedSetMapper`: its items, in the order that they are kept.
pub record SetItems (S : Type 0) ⦃m : SetMapper S⦄ : Type 0 where
  pub items_of : S → List ℕ
  pub len-items : (s : S) → m.len s ≡ length (items_of s)

module _ {S : Type 0} ⦃m : SetMapper S⦄ ⦃its : SetItems S⦄ where
  abbrev pub items : S → List ℕ
  items = its.items_of
