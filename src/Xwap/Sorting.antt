-- ===== src/Xwap/Sorting.antt =====
-- The insertion sort of the prices: it sorts in place, and keeps every price.
use xcron_protocol.Prelude.{
  ℕ, suc, ◌+◌, ◌-◌, ◌≤◌, ◌≡◌, refl, ap, ◌∙◌, Bool, List, [], ◌∷◌, arith, ltb, if◌then◌else◌, length,
}
use xcron_protocol.Xwap.Keepers.{get, set, sink, sort_from, insertion_sort}

-- An array at an index: what is before it, the nearest first, and what is from it on.
abbrev rev_append : List ℕ → List ℕ → List ℕ
rev_append [] ys = ys
rev_append (x ∷ xs) ys = rev_append xs (x ∷ ys)

get-rev_append :
    (xs ys : List ℕ) (i k : ℕ) → i ≡ length xs + k → get i (rev_append xs ys) ≡ get k ys
unfolding get
get-rev_append [] ys i k e = ground (arith, e)
get-rev_append (x ∷ xs) ys i k e = get-rev_append xs (x ∷ ys) i (suc k) (omega (arith, e))

set-rev_append :
    (v : ℕ) (xs ys : List ℕ) (i k : ℕ)
    → i ≡ length xs + k
    → set i v (rev_append xs ys) ≡ rev_append xs (set k v ys)
unfolding set
set-rev_append v [] ys i k e = ground (arith, e)
set-rev_append v (x ∷ xs) ys i k e = set-rev_append v xs (x ∷ ys) i (suc k) (omega (arith, e))

-- A price put in its place in a descending list.
abbrev put_in : ℕ → List ℕ → List ℕ
put_in x [] = x ∷ []
put_in x (y ∷ ys) = if ltb x y then y ∷ put_in x ys else x ∷ y ∷ ys

sink-put_in :
    (xs : List ℕ) (x : ℕ) (ys : List ℕ)
    → sink (length xs) (rev_append xs (x ∷ ys)) ≡ rev_append (put_in x xs) ys
unfolding sink get set
sink-put_in [] x ys = refl
sink-put_in (y ∷ xs) x ys =
    rw
      (
        get-rev_append xs (y ∷ x ∷ ys) (length xs) 0 (omega arith),
        get-rev_append xs (y ∷ x ∷ ys) (suc (length xs)) 1 (omega arith),
        set-rev_append x xs (y ∷ x ∷ ys) (length xs) 0 (omega arith),
        set-rev_append y xs (x ∷ x ∷ ys) (suc (length xs)) 1 (omega arith),
        sink-put_in xs x (y ∷ ys),
      )
      (ground arith)

abbrev put_all : List ℕ → List ℕ → List ℕ
put_all [] ys = ys
put_all (x ∷ xs) ys = put_all xs (put_in x ys)

length-put_in : (x : ℕ) (ys : List ℕ) → length (put_in x ys) ≡ suc (length ys)
length-put_in x [] = refl
length-put_in x (y ∷ ys) = ground (arith, length-put_in x ys)

sort_from-put_all :
    (xs ys : List ℕ) (i : ℕ)
    → i ≡ length xs
    → sort_from (length ys) i (rev_append xs ys) ≡ rev_append (put_all ys xs) []
unfolding sort_from
sort_from-put_all xs [] i e = refl
sort_from-put_all xs (y ∷ ys) i e =
    ap (λ l. sort_from (length ys) (suc i) l) (rw e (sink-put_in xs y ys))
    ∙ sort_from-put_all (put_in y xs) ys (suc i) (omega (arith, e, length-put_in y xs))

suc_sub : (n : ℕ) → suc n - 1 ≡ n
suc_sub n = omega arith

-- What the loops compute.
insertion_sort-put_all : (xs : List ℕ) → insertion_sort xs ≡ rev_append (put_all xs []) []
unfolding insertion_sort sort_from
insertion_sort-put_all [] = refl
insertion_sort-put_all (x ∷ xs) = rw (suc_sub (length xs)) (sort_from-put_all (x ∷ []) xs 1 refl)

abbrev pub AllAtLeast : ℕ → List ℕ → Type 0
AllAtLeast n [] = Unit
AllAtLeast n (x ∷ xs) = (n ≤ x) × AllAtLeast n xs

abbrev AllAtMost : ℕ → List ℕ → Type 0
AllAtMost n [] = Unit
AllAtMost n (x ∷ xs) = (x ≤ n) × AllAtMost n xs

-- Ascending: no item is greater than a later one.
abbrev pub IsAscending : List ℕ → Type 0
IsAscending [] = Unit
IsAscending (x ∷ xs) = AllAtLeast x xs × IsAscending xs

abbrev IsDescending : List ℕ → Type 0
IsDescending [] = Unit
IsDescending (x ∷ xs) = AllAtMost x xs × IsDescending xs

-- How many items pass a test.
abbrev pub tally : (ℕ → Bool) → List ℕ → ℕ
tally p [] = 0
tally p (x ∷ xs) = if p x then suc (tally p xs) else tally p xs

AllAtMost-trans : (m n : ℕ) (xs : List ℕ) → m ≤ n → AllAtMost m xs → AllAtMost n xs
AllAtMost-trans m n [] h a = tt
AllAtMost-trans m n (x ∷ xs) h a = (omega (arith, a.0), AllAtMost-trans m n xs h a.1)

AllAtMost-put_in : (n x : ℕ) (ys : List ℕ) → x ≤ n → AllAtMost n ys → AllAtMost n (put_in x ys)
AllAtMost-put_in n x [] h a = (h, tt)
AllAtMost-put_in n x (y ∷ ys) h a = ground (arith, AllAtMost-put_in n x ys h a.1)

put_in-IsDescending : (x : ℕ) (ys : List ℕ) → IsDescending ys → IsDescending (put_in x ys)
put_in-IsDescending x [] h = (tt, tt)
put_in-IsDescending x (y ∷ ys) h =
    ground (arith, put_in-IsDescending x ys h.1, AllAtMost-put_in y x ys, AllAtMost-trans y x ys)

put_all-IsDescending : (xs ys : List ℕ) → IsDescending ys → IsDescending (put_all xs ys)
put_all-IsDescending [] ys h = h
put_all-IsDescending (x ∷ xs) ys h =
    put_all-IsDescending xs (put_in x ys) (put_in-IsDescending x ys h)

-- Everything in the first list is at most everything in the second.
abbrev Below : List ℕ → List ℕ → Type 0
Below [] ys = Unit
Below (x ∷ xs) ys = AllAtLeast x ys × Below xs ys

Below-cons : (y : ℕ) (xs ys : List ℕ) → AllAtMost y xs → Below xs ys → Below xs (y ∷ ys)
Below-cons y [] ys a b = tt
Below-cons y (x ∷ xs) ys a b = ((a.0, b.0), Below-cons y xs ys a.1 b.1)

rev_append-IsAscending :
    (xs ys : List ℕ)
    → IsDescending xs
    → IsAscending ys
    → Below xs ys
    → IsAscending (rev_append xs ys)
rev_append-IsAscending [] ys d a b = a
rev_append-IsAscending (x ∷ xs) ys d a b =
    rev_append-IsAscending xs (x ∷ ys) d.1 (b.0, a) (Below-cons x xs ys d.0 b.1)

Below-nil : (xs : List ℕ) → Below xs []
Below-nil [] = tt
Below-nil (x ∷ xs) = (tt, Below-nil xs)

tally-rev_append :
    (p : ℕ → Bool) (xs ys : List ℕ) → tally p (rev_append xs ys) ≡ tally p xs + tally p ys
tally-rev_append p [] ys = omega arith
tally-rev_append p (x ∷ xs) ys = ground (arith, tally-rev_append p xs (x ∷ ys))

tally-put_in : (p : ℕ → Bool) (x : ℕ) (ys : List ℕ) → tally p (put_in x ys) ≡ tally p (x ∷ ys)
tally-put_in p x [] = refl
tally-put_in p x (y ∷ ys) = ground (arith, tally-put_in p x ys)

tally-put_all : (p : ℕ → Bool) (xs ys : List ℕ) → tally p (put_all xs ys) ≡ tally p xs + tally p ys
tally-put_all p [] ys = omega arith
tally-put_all p (x ∷ xs) ys = ground (arith, tally-put_all p xs (put_in x ys), tally-put_in p x ys)

pub tally-insertion_sort : (p : ℕ → Bool) (xs : List ℕ) → tally p (insertion_sort xs) ≡ tally p xs
tally-insertion_sort p xs =
    rw (insertion_sort-put_all xs)
      (omega (arith, tally-rev_append p (put_all xs []) [], tally-put_all p xs []))

pub insertion_sort-IsAscending : (xs : List ℕ) → IsAscending (insertion_sort xs)
insertion_sort-IsAscending xs = rw (insertion_sort-put_all xs) (
    rev_append-IsAscending (put_all xs []) [] (put_all-IsDescending xs [] tt) tt
      (Below-nil (put_all xs [])))

-- The loops that swap neighbours sort any list of prices: the result is ascending, and any test is
-- passed by as many of its items as before, so no price is lost, added or changed.
pub insertion_sort_sorts :
    (xs : List ℕ)
    → IsAscending (insertion_sort xs) × ((p : ℕ → Bool) → tally p (insertion_sort xs) ≡ tally p xs)
insertion_sort_sorts xs = (insertion_sort-IsAscending xs, λ p. tally-insertion_sort p xs)
