-- ===== src/Prelude/Dict.antt =====
-- Python's `dict` with text keys: entries in the order of insertion, a present key keeps its place.
use Prim.Native.String.{String}
use mathlib.Core.Path.{◌≡◌, refl, ap}
use mathlib.Core.Bool.{Bool}
use mathlib.Core.List.{List, [], ◌∷◌, ◌++◌, reverse, reverse-cons}
use mathlib.Core.Option.{Option, none, some}
use native.Mathlib.Omega.{arith}
use text.Mathlib.Text.{◌==◌}
use text.Mathlib.TextEquality.{eq_iff}
use st_tools.Prelude.Tests.{if◌then◌else◌, is_some, map_option, Option-cases}

abbrev pub Dict {ℓ} : Type ℓ → Type ℓ
Dict V = List (String × V)

module _ {ℓ} {V : Type ℓ} where
  unfoldable pub lookup : String → Dict V → Option V
  lookup k [] = none
  lookup k ((j, v) ∷ d) = if j == k then some v else lookup k d

  -- `k in d`
  abbrev pub has : String → Dict V → Bool
  has k d = is_some (lookup k d)

  -- `d[k] = v`
  unfoldable pub insert : String → V → Dict V → Dict V
  insert k v [] = (k, v) ∷ []
  insert k v ((j, w) ∷ d) = if j == k then (j, v) ∷ d else (j, w) ∷ insert k v d

  -- `del d[k]`
  unfoldable pub erase : String → Dict V → Dict V
  erase k [] = []
  erase k ((j, w) ∷ d) = let rest = erase k d in if j == k then rest else (j, w) ∷ rest

  -- An assignment inside `d[k]`.
  unfoldable pub modify : String → (V → V) → Dict V → Dict V
  modify k f [] = []
  modify k f ((j, w) ∷ d) = (j, if j == k then f w else w) ∷ modify k f d

  unfoldable pub keys : Dict V → List String
  keys [] = []
  keys ((j, w) ∷ d) = j ∷ keys d

  unfoldable pub values : Dict V → List V
  values [] = []
  values ((j, w) ∷ d) = w ∷ values d

  -- No key stands twice.
  abbrev pub IsDict : Dict V → Type ℓ
  IsDict [] = Unit
  IsDict ((j, w) ∷ d) = (lookup j d ≡ none) × IsDict d

  pub lookup-insert :
      (k j : String) (v : V) (d : Dict V)
      → lookup j (insert k v d) ≡ (if k == j then some v else lookup j d)
  unfolding lookup insert
  lookup-insert k j v [] = refl
  lookup-insert k j v ((i, w) ∷ d) =
      ground (arith, eq_iff k j, eq_iff i k, eq_iff i j, lookup-insert k j v d)

  pub lookup-erase :
      (k j : String) (d : Dict V) → lookup j (erase k d) ≡ (if k == j then none else lookup j d)
  unfolding lookup erase
  lookup-erase k j [] = ground arith
  lookup-erase k j ((i, w) ∷ d) =
      ground (arith, eq_iff k j, eq_iff i k, eq_iff i j, lookup-erase k j d)

  pub lookup-modify :
      (k j : String) (f : V → V) (d : Dict V)
      → lookup j (modify k f d) ≡ (if k == j then map_option f (lookup j d) else lookup j d)
  unfolding lookup modify
  lookup-modify k j f [] = ground arith
  lookup-modify k j f ((i, w) ∷ d) =
      ground (arith, eq_iff k j, eq_iff i k, eq_iff i j, lookup-modify k j f d)

pub ruleset dict_laws = (lookup-insert, lookup-erase, lookup-modify)

module _ {ℓ} {V : Type ℓ} where
  pub insert-IsDict : (k : String) (v : V) (d : Dict V) → IsDict d → IsDict (insert k v d)
  unfolding lookup insert
  insert-IsDict k v [] h = (refl, tt)
  insert-IsDict k v ((j, w) ∷ d) h =
      ground (arith, eq_iff j k, eq_iff k j, lookup-insert k j v d, insert-IsDict k v d h.1)

  pub modify-IsDict : (k : String) (f : V → V) (d : Dict V) → IsDict d → IsDict (modify k f d)
  unfolding lookup modify
  modify-IsDict k f [] h = tt
  modify-IsDict k f ((j, w) ∷ d) h = ground (arith, lookup-modify k j f d, modify-IsDict k f d h.1)

  pub erase-IsDict : (k : String) (d : Dict V) → IsDict d → IsDict (erase k d)
  unfolding lookup erase
  erase-IsDict k [] h = tt
  erase-IsDict k ((j, w) ∷ d) h = ground (arith, lookup-erase k j d, erase-IsDict k d h.1)

  -- A change at a key that is not there changes nothing.
  pub modify_of_missing :
      (k : String) (f : V → V) (d : Dict V) → lookup k d ≡ none → modify k f d ≡ d
  unfolding lookup modify
  modify_of_missing k f [] h = refl
  modify_of_missing k f ((j, w) ∷ d) h = ground (arith, modify_of_missing k f d)

  modify-append :
      (k : String) (f : V → V) (d e : Dict V) → modify k f (d ++ e) ≡ modify k f d ++ modify k f e
  unfolding modify
  modify-append k f [] e = refl
  modify-append k f ((j, w) ∷ d) e = ap (◌∷◌ (j, if j == k then f w else w)) (modify-append k f d e)

  pub modify-reverse :
      (k : String) (f : V → V) (d : Dict V) → modify k f (reverse d) ≡ reverse (modify k f d)
  unfolding modify
  modify-reverse k f [] = refl
  modify-reverse k f ((j, w) ∷ d) = rw (
    reverse-cons (j, w) d,
    modify-append k f (reverse d) ((j, w) ∷ []),
    modify-reverse k f d,
    reverse-cons (j, if j == k then f w else w) (modify k f d),
  )

  lookup-append :
      (j : String) (d e : Dict V)
      → lookup j (d ++ e) ≡ (if is_some (lookup j d) then lookup j d else lookup j e)
  unfolding lookup
  lookup-append j [] e = refl
  lookup-append j ((k, v) ∷ d) e = ground (arith, lookup-append j d e)

  append_one-IsDict :
      (k : String) (v : V) (d : Dict V) → lookup k d ≡ none → IsDict d → IsDict (d ++ (k, v) ∷ [])
  unfolding lookup
  append_one-IsDict k v [] f h = (refl, tt)
  append_one-IsDict k v ((j, w) ∷ d) f h =
      ground
        (arith, eq_iff k j, eq_iff j k, lookup-append j d ((k, v) ∷ []), append_one-IsDict k v d)

  pub lookup-reverse : (j : String) (d : Dict V) → lookup j d ≡ none → lookup j (reverse d) ≡ none
  unfolding lookup
  lookup-reverse j [] h = refl
  lookup-reverse j ((k, v) ∷ d) h =
      rw (reverse-cons (k, v) d)
        (ground (arith, lookup-append j (reverse d) ((k, v) ∷ []), lookup-reverse j d))

  pub reverse-IsDict : (d : Dict V) → IsDict d → IsDict (reverse d)
  reverse-IsDict [] h = tt
  reverse-IsDict ((k, v) ∷ d) h =
      rw (reverse-cons (k, v) d)
        (append_one-IsDict k v (reverse d) (lookup-reverse k d h.0) (reverse-IsDict d h.1))

  pub lookup-reverse-some :
      (j : String) (v : V) (d : Dict V)
      → IsDict d
      → lookup j (reverse d) ≡ some v
      → lookup j d ≡ some v
  unfolding lookup
  lookup-reverse-some j v [] h e = e
  lookup-reverse-some j v ((k, w) ∷ d) h e = ground (
    arith,
    eq_iff k j,
    reverse-cons (k, w) d,
    lookup-append j (reverse d) ((k, w) ∷ []),
    Option-cases (lookup j (reverse d)),
    lookup-reverse j d,
    lookup-reverse-some j v d h.1,
  )
