-- ===== src/Prelude/Lists.antt =====
-- Lists of texts, predicates by recursion, and lists measured by the native numbers.
use Prim.Native.Nat.{ℕ, zero, suc, ◌+◌}
use Prim.Native.String.{String}
use mathlib.Core.Path.{◌≡◌, refl}
use mathlib.Core.Bool.{Bool, false, ◌||◌}
use mathlib.Core.List.{List, [], ◌∷◌, ◌++◌, reverse, reverse-cons}
use mathlib.Core.Option.{Option, none, some}
use native.Mathlib.Omega.{arith}
use text.Mathlib.Text.{◌==◌}
use st_tools.Prelude.Tests.{if◌then◌else◌}

module _ {ℓ} {A : Type ℓ} where
  abbrev pub length : List A → ℕ
  length [] = 0
  length (x ∷ xs) = suc (length xs)

  pub length-append : (xs ys : List A) → length (xs ++ ys) ≡ length xs + length ys
  length-append [] ys = omega arith
  length-append (x ∷ xs) ys = omega (arith, length-append xs ys)

  abbrev pub All {κ} : (A → Type κ) → List A → Type κ
  All P [] = Unit
  All P (x ∷ xs) = P x × All P xs

  -- The element at the end, which Python writes `l[-1]`.
  abbrev pub last? : List A → Option A
  last? [] = none
  last? (x ∷ []) = some x
  last? (x ∷ y ∷ l) = last? (y ∷ l)

  -- The list that `l.pop()` leaves.
  abbrev pub drop_last : List A → List A
  drop_last [] = []
  drop_last (x ∷ []) = []
  drop_last (x ∷ y ∷ l) = x ∷ drop_last (y ∷ l)

  abbrev pub get_elem? : List A → ℕ → Option A
  get_elem? [] n = none
  get_elem? (x ∷ l) zero = some x
  get_elem? (x ∷ l) (suc n) = get_elem? l n

  -- `l[:n]`
  abbrev pub take : ℕ → List A → List A
  take zero l = []
  take (suc n) [] = []
  take (suc n) (x ∷ l) = x ∷ take n l

-- `a in l`
unfoldable pub contains : String → List String → Bool
contains a [] = false
contains a (x ∷ l) = x == a || contains a l

-- `l.remove(a)`: the first occurrence.
unfoldable pub remove : String → List String → List String
remove a [] = []
remove a (x ∷ l) = if x == a then l else x ∷ remove a l

-- `l[l.index(a) + 1:]`, for an `a` that occurs.
unfoldable pub after : String → List String → List String
after a [] = []
after a (x ∷ l) = if x == a then l else after a l

module _ {ℓ} {A : Type ℓ} where
  -- A list read backwards begins with its end.
  pub reverse-last : (b : A) (l : List A) → last? l ≡ some b → reverse l ≡ b ∷ reverse (drop_last l)
  reverse-last b [] h = cc
  reverse-last b (x ∷ []) h = cc
  reverse-last b (x ∷ y ∷ l) h =
      rw (reverse-cons x (y ∷ l), reverse-last b (y ∷ l) h, reverse-cons x (drop_last (y ∷ l)))

  pub nil_of_last : (l : List A) → last? l ≡ none → l ≡ []
  nil_of_last [] h = refl
  nil_of_last (x ∷ []) h = cc
  nil_of_last (x ∷ y ∷ l) h = cc (nil_of_last (y ∷ l) h)
