-- ===== src/Prelude/Decimal.antt =====
-- `str::parse::<u128>` and `u128::to_string` of Rust's standard library, on the bytes of a text.
use Prim.Native.Nat.{ℕ, zero, suc, ◌+◌, ◌-◌, ◌*◌, ◌/◌, ◌%◌, ◌^◌, ◌≤◌, ◌<◌}
use mathlib.Core.Path.{◌≡◌, refl, sym, ap, ◌∙◌}
use mathlib.Core.Logic.{◌⊎◌, inl, inr}
use mathlib.Core.Bool.{◌&&◌}
use mathlib.Core.Option.{Option, none, some}
use mathlib.Core.List.{List, [], ◌∷◌, ◌++◌, append_assoc, append-nil}
use native.Mathlib.Omega.{arith}
use native.Mathlib.Numerals.{unary_clauses}
use xcron_protocol.Prelude.Tests.{ltb, leb, ◌==◌, if◌then◌else◌, Bool-cases, ltb→lt}

-- The bytes of a text.
abbrev pub Text : Type 0
Text = List ℕ

-- The bytes of the digits stand at 48 to 57; a number that does not fit is refused.
unfoldable pub parse_digits : ℕ → Text → Option ℕ
parse_digits acc [] = some acc
parse_digits acc (c ∷ cs) =
    let rest = parse_digits (acc * 10 + (c - 48)) cs in
    if leb 48 c && leb c 57 && ltb (acc * 10 + (c - 48)) (2 ^ 128) then rest else none

-- The empty text and a sign alone are refused; 43 is the plus sign.
unfoldable pub parse_u128 : Text → Option ℕ
unfolding parse_digits
parse_u128 [] = none
parse_u128 (c ∷ []) = parse_digits 0 (c ∷ [])
parse_u128 (c ∷ d ∷ cs) = if c == 43 then parse_digits 0 (d ∷ cs) else parse_digits 0 (c ∷ d ∷ cs)

-- `unwrap_or(0)`
abbrev pub or_zero : Option ℕ → ℕ
or_zero none = 0
or_zero (some n) = n

-- The digits of a number below `10 ^ k`.
unfoldable pub show_digits : ℕ → ℕ → Text
show_digits zero n = []
show_digits (suc k) n =
    let front = show_digits k (n / 10) in
    if ltb n 10 then (48 + n) ∷ [] else front ++ ((48 + n % 10) ∷ [])

-- No `u128` has more than 39 digits.
unfoldable pub to_string : ℕ → Text
unfolding show_digits
to_string n = show_digits 39 n

-- One more digit.
parse_digits_next :
    (n : ℕ) (rest : Text)
    → n < 2 ^ 128
    → parse_digits (n / 10) ((48 + n % 10) ∷ rest) ≡ parse_digits n rest
unfolding parse_digits
parse_digits_next n rest l =
    let whole : n / 10 * 10 + (48 + n % 10 - 48) ≡ n = omega arith in ground (arith, l, whole)

div-lt-pow : (k n : ℕ) → n < 10 ^ suc k → n / 10 < 10 ^ k
div-lt-pow k n h = omega (arith, simp unary_clauses at h)

parse_digits-show_digits :
    (k n : ℕ) (rest : Text)
    → n < 10 ^ k
    → n < 2 ^ 128
    → parse_digits 0 (show_digits k n ++ rest) ≡ parse_digits n rest
unfolding show_digits
parse_digits-show_digits zero n rest h l = let e : 0 ≡ n = omega arith in rw e refl
parse_digits-show_digits (suc k) n rest h l = elim (Bool-cases (ltb n 10)) [
  | inl e ↦
      (let small : n < 10 = ltb→lt n 10 e in
        let low : n / 10 ≡ 0 = omega arith in
        let digit : n % 10 ≡ n = omega arith in
        let next = parse_digits_next n rest l in ground (arith, e, next, low, digit))
  | inr e ↦
      (let ih =
          parse_digits-show_digits k (n / 10) ((48 + n % 10) ∷ rest) (div-lt-pow k n h)
            (omega arith) in
        rw (e, append_assoc) (ih ∙ parse_digits_next n rest l))
]

-- No sign in front of the digits.
StartsWithDigit : Text → Type 0
StartsWithDigit [] = ⊥
StartsWithDigit (c ∷ cs) = 48 ≤ c

StartsWithDigit-append :
    (front : Text) (c : ℕ) (cs : Text)
    → 48 ≤ c
    → (StartsWithDigit front ⊎ (front ≡ []))
    → StartsWithDigit (front ++ (c ∷ cs))
unfolding StartsWithDigit
StartsWithDigit-append [] c cs h s = h
StartsWithDigit-append (d ∷ front) c cs h (inl s) = s
StartsWithDigit-append (d ∷ front) c cs h (inr e) = ground (arith, e)

-- With no digit in front the last one is the first.
show_digits_step :
    (k n : ℕ)
    → (StartsWithDigit (show_digits k (n / 10)) ⊎ (show_digits k (n / 10) ≡ []))
    → StartsWithDigit (show_digits (suc k) n)
unfolding show_digits StartsWithDigit
show_digits_step k n front = elim (Bool-cases (ltb n 10)) [
  | inl e ↦ rw e (omega arith)
  | inr e ↦
      rw e (StartsWithDigit-append (show_digits k (n / 10)) (48 + n % 10) [] (omega arith) front)
]

show_digits_starts : (k n : ℕ) → StartsWithDigit (show_digits k n) ⊎ (show_digits k n ≡ [])
unfolding show_digits
show_digits_starts zero n = inr refl
show_digits_starts (suc k) n = inl (show_digits_step k n (show_digits_starts k (n / 10)))

show_digits-StartsWithDigit : (k n : ℕ) → StartsWithDigit (show_digits (suc k) n)
show_digits-StartsWithDigit k n = show_digits_step k n (show_digits_starts k (n / 10))

parse_digits_nil : (n : ℕ) → parse_digits n [] ≡ some n
unfolding parse_digits
parse_digits_nil n = refl

parse_u128_digits : (s : Text) → StartsWithDigit s → parse_u128 s ≡ parse_digits 0 s
unfolding parse_u128 StartsWithDigit
parse_u128_digits [] h = elim h [ ]
parse_u128_digits (c ∷ []) h = refl
parse_u128_digits (c ∷ d ∷ cs) h = ground (arith, h)

parse_u128-show_digits :
    (k n : ℕ) → n < 10 ^ suc k → n < 2 ^ 128 → parse_u128 (show_digits (suc k) n) ≡ some n
parse_u128-show_digits k n h l =
    parse_u128_digits (show_digits (suc k) n) (show_digits-StartsWithDigit k n)
    ∙ (ap (parse_digits 0) (sym (append-nil (show_digits (suc k) n)))
        ∙ (parse_digits-show_digits (suc k) n [] h l ∙ parse_digits_nil n))

-- Every `u128` is read back from its digits.
pub parse_u128-to_string : (n : ℕ) → n < 2 ^ 128 → parse_u128 (to_string n) ≡ some n
unfolding to_string
parse_u128-to_string n h = parse_u128-show_digits 38 n (omega arith) h
