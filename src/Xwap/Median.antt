-- ===== src/Xwap/Median.antt =====
-- The median of the fresh reports, and what a minority of keepers can do to it.
use xcron_protocol.Prelude.{
  ℕ, zero, suc, ◌+◌, ◌-◌, ◌*◌, ◌/◌, ◌≤◌, ◌<◌, ◌≡◌, refl, Bool, true, ◌&&◌, List, [], ◌∷◌, arith,
  leb, length,
}
use xcron_protocol.Framework.{Ctx, SetMapper, SetItems}
use xcron_protocol.Xwap.State.{State}
use xcron_protocol.Xwap.Keepers.{get, middle, insertion_sort, fresh_of, get_median_off_chain}
use xcron_protocol.Xwap.Sorting.{
  AllAtLeast, IsAscending, tally, tally-insertion_sort, insertion_sort-IsAscending,
}

tally-above : (n hi : ℕ) (xs : List ℕ) → hi < n → AllAtLeast n xs → tally (λ x. leb x hi) xs ≡ 0
tally-above n hi [] h a = refl
tally-above n hi (x ∷ xs) h a = ground (arith, tally-above n hi xs h a.1)

get_at_most :
    (hi i : ℕ) (xs : List ℕ) → IsAscending xs → i < tally (λ x. leb x hi) xs → get i xs ≤ hi
unfolding get
get_at_most hi i [] a h = omega arith
get_at_most hi zero (x ∷ xs) a h = ground (arith, tally-above x hi xs)
get_at_most hi (suc i) (x ∷ xs) a h = ground (arith, tally-above x hi xs, get_at_most hi i xs a.1)

get-AllAtLeast : (n i : ℕ) (xs : List ℕ) → AllAtLeast n xs → i < length xs → n ≤ get i xs
unfolding get
get-AllAtLeast n i [] a h = omega arith
get-AllAtLeast n zero (x ∷ xs) a h = a.0
get-AllAtLeast n (suc i) (x ∷ xs) a h = get-AllAtLeast n i xs a.1 (omega (arith, h))

tally-le : (p : ℕ → Bool) (xs : List ℕ) → tally p xs ≤ length xs
tally-le p [] = omega arith
tally-le p (x ∷ xs) = ground (arith, tally-le p xs)

get_at_least :
    (lo i : ℕ) (xs : List ℕ)
    → IsAscending xs
    → i < length xs
    → length xs ≤ i + tally (λ x. leb lo x) xs
    → lo ≤ get i xs
unfolding get
get_at_least lo i [] a h k = omega arith
get_at_least lo zero (x ∷ xs) a h k = ground (arith, tally-le (λ x. leb lo x) xs)
get_at_least lo (suc i) (x ∷ xs) a h k =
    ground (arith, get-AllAtLeast x i xs a.0, get_at_least lo i xs a.1)

tally-length : (xs : List ℕ) → tally (λ x. true) xs ≡ length xs
tally-length [] = refl
tally-length (x ∷ xs) = omega (arith, tally-length xs)

-- An item in the range is above its lower end, and below its upper end.
tally-range :
    (lo hi : ℕ) (xs : List ℕ)
    → (tally (λ x. leb lo x && leb x hi) xs ≤ tally (λ x. leb lo x) xs)
      × (tally (λ x. leb lo x && leb x hi) xs ≤ tally (λ x. leb x hi) xs)
tally-range lo hi [] = (omega arith, omega arith)
tally-range lo hi (x ∷ xs) = ground (arith, tally-range lo hi xs)

pub length-insertion_sort : (xs : List ℕ) → length (insertion_sort xs) ≡ length xs
length-insertion_sort xs =
    omega (
      arith,
      tally-length (insertion_sort xs),
      tally-length xs,
      tally-insertion_sort (λ x. true) xs,
    )

middle-within :
    (lo hi : ℕ) (xs : List ℕ)
    → IsAscending xs
    → length xs < 2 * tally (λ x. leb lo x) xs
    → length xs < 2 * tally (λ x. leb x hi) xs
    → (lo ≤ middle xs) × (middle xs ≤ hi)
unfolding middle
middle-within lo hi xs a l h = ground (
  arith,
  tally-le (λ x. leb lo x) xs,
  get_at_least lo (length xs / 2) xs a,
  get_at_least lo (length xs / 2 - 1) xs a,
  get_at_most hi (length xs / 2) xs a,
  get_at_most hi (length xs / 2 - 1) xs a,
)

module _ {S : Type 0} ⦃sets : SetMapper S⦄ ⦃its : SetItems S⦄ where
  -- If more than half of the fresh reports lie in a range, so does the median, whatever the other
  -- keepers report: a minority can not move the price that the gate compares with out of the range.
  pub get_median_off_chain_within :
      (c : Ctx) (lo hi : ℕ) (s : State S)
      → length (fresh_of c s) < 2 * tally (λ x. leb lo x && leb x hi) (fresh_of c s)
      → (lo ≤ get_median_off_chain c s) × (get_median_off_chain c s ≤ hi)
  unfolding get_median_off_chain
  get_median_off_chain_within c lo hi s h =
      let ps = fresh_of c s in
      middle-within lo hi (insertion_sort ps) (insertion_sort-IsAscending ps)
        (omega (
          arith,
          h,
          tally-range lo hi ps,
          tally-insertion_sort (λ x. leb lo x) ps,
          length-insertion_sort ps,
        ))
        (omega (
          arith,
          h,
          tally-range lo hi ps,
          tally-insertion_sort (λ x. leb x hi) ps,
          length-insertion_sort ps,
        ))
