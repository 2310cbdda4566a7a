-- ===== src/Version/Sort.antt =====
-- `sorted(d.keys(), key=LooseVersion)` of a dict, with the values kept beside the keys.
use mathlib.Core.List.{Perm}
use mathlib.Core.List.Perm
use st_tools.Prelude.{
  String, true, none, some, [], ◌∷◌, ◌≡◌, refl, ap, arith, inl, inr, Bool-cases, All, ◌==◌, eq_iff,
  if◌then◌else◌,
}
use st_tools.Prelude.Dict.{Dict, lookup, modify, IsDict}
use st_tools.Version.{version_le}
use st_tools.Version.Order.{version_le-total, version_le_trans}

module _ {ℓ} {V : Type ℓ} where
  place : String → V → Dict V → Dict V
  place k v [] = (k, v) ∷ []
  place k v ((j, w) ∷ d) = if version_le k j then (k, v) ∷ (j, w) ∷ d else (j, w) ∷ place k v d

  -- Stable: keys of one version keep their order.
  unfoldable pub sort : Dict V → Dict V
  unfolding place
  sort [] = []
  sort ((k, v) ∷ d) = place k v (sort d)

  abbrev pub IsSorted : Dict V → Type ℓ
  IsSorted [] = Unit
  IsSorted ((k, v) ∷ d) = All (λ e. version_le k e.0 ≡ true) d × IsSorted d

  place-perm : (k : String) (v : V) (d : Dict V) → Perm (place k v d) ((k, v) ∷ d)
  unfolding place
  place-perm k v [] = Perm.refl ((k, v) ∷ [])
  place-perm k v ((j, w) ∷ d) = elim (Bool-cases (version_le k j)) [
    | inl e ↦ rw e (Perm.refl ((k, v) ∷ (j, w) ∷ d))
    | inr e ↦ rw e (Perm.trans (Perm.cons (j, w) (place-perm k v d)) (Perm.swap (k, v) (j, w) d))
  ]

  sort-perm : (d : Dict V) → Perm (sort d) d
  unfolding sort
  sort-perm [] = Perm.nil
  sort-perm ((k, v) ∷ d) = Perm.trans (place-perm k v (sort d)) (Perm.cons (k, v) (sort-perm d))

  All-le_trans :
      (k j : String) (d : Dict V)
      → version_le k j ≡ true
      → All (λ e. version_le j e.0 ≡ true) d
      → All (λ e. version_le k e.0 ≡ true) d
  All-le_trans k j [] h a = tt
  All-le_trans k j ((i, v) ∷ d) h a = (version_le_trans k j i h a.0, All-le_trans k j d h a.1)

  All-place :
      (i k : String) (v : V) (d : Dict V)
      → version_le i k ≡ true
      → All (λ e. version_le i e.0 ≡ true) d
      → All (λ e. version_le i e.0 ≡ true) (place k v d)
  unfolding place
  All-place i k v [] h a = (h, tt)
  All-place i k v ((j, w) ∷ d) h a = elim (Bool-cases (version_le k j)) [
    | inl e ↦ rw e (h, a)
    | inr e ↦ rw e (a.0, All-place i k v d h a.1)
  ]

  place-IsSorted : (k : String) (v : V) (d : Dict V) → IsSorted d → IsSorted (place k v d)
  unfolding place
  place-IsSorted k v [] s = (tt, tt)
  place-IsSorted k v ((j, w) ∷ d) s = elim (Bool-cases (version_le k j)) [
    | inl e ↦ rw e ((e, All-le_trans k j d e s.0), s)
    | inr e ↦ rw e (All-place j k v d (version_le-total k j e) s.0, place-IsSorted k v d s.1)
  ]

  sort-IsSorted : (d : Dict V) → IsSorted (sort d)
  unfolding sort
  sort-IsSorted [] = tt
  sort-IsSorted ((k, v) ∷ d) = place-IsSorted k v (sort d) (sort-IsSorted d)

  -- The result ascends, and it neither drops nor makes up an entry.
  sort_in_order : (d : Dict V) → IsSorted (sort d) × Perm (sort d) d
  sort_in_order d = (sort-IsSorted d, sort-perm d)

  lookup-place :
      (k j : String) (v : V) (d : Dict V)
      → lookup k d ≡ none
      → lookup j (place k v d) ≡ (if k == j then some v else lookup j d)
  unfolding place lookup
  lookup-place k j v [] f = refl
  lookup-place k j v ((i, w) ∷ d) f =
      ground (arith, eq_iff k j, eq_iff i j, eq_iff i k, lookup-place k j v d)

  pub lookup-sort : (j : String) (d : Dict V) → IsDict d → lookup j (sort d) ≡ lookup j d
  unfolding sort lookup
  lookup-sort j [] h = refl
  lookup-sort j ((k, v) ∷ d) h =
      rw (lookup-place k j v (sort d) (rw (lookup-sort k d h.1) h.0), lookup-sort j d h.1)

  place-IsDict :
      (k : String) (v : V) (d : Dict V) → lookup k d ≡ none → IsDict d → IsDict (place k v d)
  unfolding place lookup
  place-IsDict k v [] f h = (refl, tt)
  place-IsDict k v ((j, w) ∷ d) f h =
      ground (arith, eq_iff k j, eq_iff j k, lookup-place k j v d, place-IsDict k v d)

  pub sort-IsDict : (d : Dict V) → IsDict d → IsDict (sort d)
  unfolding sort
  sort-IsDict [] h = tt
  sort-IsDict ((k, v) ∷ d) h =
      place-IsDict k v (sort d) (rw (lookup-sort k d h.1) h.0) (sort-IsDict d h.1)

  modify-place :
      (i k : String) (f : V → V) (v : V) (d : Dict V)
      → modify i f (place k v d) ≡ place k (if k == i then f v else v) (modify i f d)
  unfolding place modify
  modify-place i k f v [] = refl
  modify-place i k f v ((j, w) ∷ d) = elim (Bool-cases (version_le k j)) [
    | inl e ↦ rw e
    | inr e ↦ rw e (ap (◌∷◌ (j, if j == i then f w else w)) (modify-place i k f v d))
  ]

  -- A change of values does not change the order.
  pub sort-modify :
      (i : String) (f : V → V) (d : Dict V) → sort (modify i f d) ≡ modify i f (sort d)
  unfolding sort modify
  sort-modify i f [] = refl
  sort-modify i f ((k, v) ∷ d) = rw (modify-place i k f v (sort d), ← sort-modify i f d)
