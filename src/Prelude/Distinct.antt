-- ===== src/Prelude/Distinct.antt =====
-- Lists of distinct texts under the list operations of the queue.
use Prim.Native.String.{String}
use mathlib.Core.Path.{◌≡◌, refl}
use mathlib.Core.Bool.{true, false, ◌||◌}
use mathlib.Core.List.{List, [], ◌∷◌, ◌++◌}
use mathlib.Core.Option.{some}
use native.Mathlib.Omega.{arith}
use text.Mathlib.TextEquality.{eq_iff}
use st_tools.Prelude.Lists.{contains, remove, after, last?, drop_last}

abbrev pub IsDistinct : List String → Type 0
IsDistinct [] = Unit
IsDistinct (x ∷ l) = (contains x l ≡ false) × IsDistinct l

pub contains-append :
    (a : String) (l m : List String) → contains a (l ++ m) ≡ (contains a l || contains a m)
unfolding contains
contains-append a [] m = refl
contains-append a (x ∷ l) m = ground (arith, contains-append a l m)

pub contains_of_remove :
    (a b : String) (l : List String) → contains b (remove a l) ≡ true → contains b l ≡ true
unfolding contains remove
contains_of_remove a b [] h = h
contains_of_remove a b (x ∷ l) h = ground (arith, contains_of_remove a b l)

pub not-contains-remove :
    (a : String) (l : List String) → IsDistinct l → contains a (remove a l) ≡ false
unfolding contains remove
not-contains-remove a [] d = refl
not-contains-remove a (x ∷ l) d = ground (arith, eq_iff x a, not-contains-remove a l)

not-contains_of_remove :
    (a b : String) (l : List String) → contains b l ≡ false → contains b (remove a l) ≡ false
unfolding contains remove
not-contains_of_remove a b [] h = h
not-contains_of_remove a b (x ∷ l) h = ground (arith, not-contains_of_remove a b l)

pub remove-IsDistinct : (a : String) (l : List String) → IsDistinct l → IsDistinct (remove a l)
unfolding remove
remove-IsDistinct a [] d = d
remove-IsDistinct a (x ∷ l) d =
    ground (arith, not-contains_of_remove a x l, remove-IsDistinct a l d.1)

pub contains_of_after :
    (a b : String) (l : List String) → contains b (after a l) ≡ true → contains b l ≡ true
unfolding contains after
contains_of_after a b [] h = h
contains_of_after a b (x ∷ l) h = ground (arith, contains_of_after a b l)

pub not-contains-after :
    (a : String) (l : List String) → IsDistinct l → contains a (after a l) ≡ false
unfolding contains after
not-contains-after a [] d = refl
not-contains-after a (x ∷ l) d = ground (arith, eq_iff x a, not-contains-after a l)

pub after-IsDistinct : (a : String) (l : List String) → IsDistinct l → IsDistinct (after a l)
unfolding after
after-IsDistinct a [] d = d
after-IsDistinct a (x ∷ l) d = ground (arith, after-IsDistinct a l d.1)

pub append-IsDistinct :
    (a : String) (l : List String) → IsDistinct l → contains a l ≡ false → IsDistinct (l ++ a ∷ [])
unfolding contains
append-IsDistinct a [] d h = (refl, tt)
append-IsDistinct a (x ∷ l) d h =
    ground (arith, eq_iff x a, eq_iff a x, contains-append x l (a ∷ []), append-IsDistinct a l d.1)

pub contains_of_drop_last :
    (b : String) (l : List String) → contains b (drop_last l) ≡ true → contains b l ≡ true
unfolding contains
contains_of_drop_last b [] h = h
contains_of_drop_last b (x ∷ []) h = ground arith
contains_of_drop_last b (x ∷ y ∷ l) h = ground (arith, contains_of_drop_last b (y ∷ l))

not-contains_of_drop_last :
    (b : String) (l : List String) → contains b l ≡ false → contains b (drop_last l) ≡ false
unfolding contains
not-contains_of_drop_last b [] h = h
not-contains_of_drop_last b (x ∷ []) h = refl
not-contains_of_drop_last b (x ∷ y ∷ l) h = ground (arith, not-contains_of_drop_last b (y ∷ l))

pub drop_last-IsDistinct : (l : List String) → IsDistinct l → IsDistinct (drop_last l)
drop_last-IsDistinct [] d = d
drop_last-IsDistinct (x ∷ []) d = tt
drop_last-IsDistinct (x ∷ y ∷ l) d =
    (not-contains_of_drop_last x (y ∷ l) d.0, drop_last-IsDistinct (y ∷ l) d.1)

pub contains-last : (b : String) (l : List String) → last? l ≡ some b → contains b l ≡ true
unfolding contains
contains-last b [] h = ground arith
contains-last b (x ∷ []) h = ground (arith, eq_iff x b)
contains-last b (x ∷ y ∷ l) h = ground (arith, contains-last b (y ∷ l))
