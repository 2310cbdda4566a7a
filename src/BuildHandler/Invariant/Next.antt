-- ===== src/BuildHandler/Invariant/Next.antt =====
-- `get_build` under the invariant: the build that it takes is known, so it never raises.
use mathlib.Core.Path.{subst}
use st_tools.Prelude.{
  ◌≡◌, refl, sym, String, Bool, true, false, Option, none, some, [], ◌∷◌, reverse, arith, inl, inr,
  Option-cases, last?, contains, eq_iff,
}
use st_tools.Prelude.Distinct.{contains-last}
use st_tools.Prelude.Dict.{Dict, lookup, has, IsDict, lookup-reverse-some, reverse-IsDict}
use st_tools.Prelude.Exec.{ok}
use st_tools.Json.{Value, null}
use st_tools.Version.Sort.{sort, sort-IsDict, lookup-sort}
use st_tools.BuildHandler.{Project, Build, Service, set_priority, update_db}
use st_tools.BuildHandler.Queue.{
  first_high, first_pending, clear_high, pop_pending, found, found_pending, Found, find_in,
  find_next_build, get_build, fetched,
}
use st_tools.BuildHandler.Invariant.Queued.{clear_high-IsSound, pop_pending-IsSound}
use st_tools.BuildHandler.Invariant.Steps.{IsConsistent, modify_project-IsConsistent}

first_high-lookup :
    (d : Dict Project) (k b : String)
    → IsDict d
    → first_high d ≡ some (k, b)
    → (p : Project) × (lookup k d ≡ some p) × (p.high_priority ≡ some b)
unfolding first_high lookup
first_high-lookup [] k b i h = cc
first_high-lookup ((j, p) ∷ d) k b i h = elim (Option-cases p.high_priority) [
  | inl e ↦
      let (r, at, is) = first_high-lookup d k b i.1 (ground arith) in
      (r, ground (arith, eq_iff j k), is)
  | inr (c, e) ↦ (p, ground (arith, eq_iff j k), ground arith)
]

first_pending-lookup :
    (d : Dict Project) (k b : String)
    → IsDict d
    → first_pending d ≡ some (k, b)
    → (p : Project) × (lookup k d ≡ some p) × (contains b p.pending ≡ true)
unfolding first_pending lookup
first_pending-lookup [] k b i h = cc
first_pending-lookup ((j, p) ∷ d) k b i h = elim (Option-cases (last? p.pending)) [
  | inl e ↦
      let (r, at, is) = first_pending-lookup d k b i.1 (ground arith) in
      (r, ground (arith, eq_iff j k), is)
  | inr (c, e) ↦ (p, ground (arith, eq_iff j k), contains-last b p.pending (ground arith))
]

-- A found build is one that the database knows, and the queue left is sound.
abbrev Fits : Service → Found → Type 0
Fits s f =
    ((b : String) → f.build ≡ some b → has b s.db.build_info ≡ true)
    × (f.build ≡ none → f.high ≡ false)
    × IsConsistent (set_priority (λ _. f.queue) s).db

found_pending-Fits :
    (s : Service) (o : Option (String × String))
    → IsConsistent s.db
    → first_pending (reverse (sort s.db.priority)) ≡ o
    → Fits s (found_pending s.db.priority o)
unfolding found_pending
found_pending-Fits s none h e = (λ b q. cc, λ q. refl, h)
found_pending-Fits s (some (k, b)) h e =
    let q = s.db.priority in
    let (p, at, is) =
      first_pending-lookup (reverse (sort q)) k b
        (reverse-IsDict (sort q) (sort-IsDict q h.queue_dict)) e in
    let at' : lookup k q ≡ some p = ground (
      arith,
      lookup-sort k q h.queue_dict,
      lookup-reverse-some k p (sort q) (sort-IsDict q h.queue_dict) at,
    ) in
    (
      λ c f. ground (arith, (h.sound k p at').pending_known b is),
      λ q. refl,
      modify_project-IsConsistent k pop_pending s
          (λ r _ v. pop_pending-IsSound s.db.build_info k r v) h,
    )

found-Fits :
    (s : Service) (o : Option (String × String))
    → IsConsistent s.db
    → first_high (sort s.db.priority) ≡ o
    → Fits s (found (sort s.db.priority) s.db.priority o)
unfolding found
found-Fits s none h e = found_pending-Fits s _ h refl
found-Fits s (some (k, b)) h e =
    let q = s.db.priority in
    let (p, at, is) = first_high-lookup (sort q) k b (sort-IsDict q h.queue_dict) e in
    let at' : lookup k q ≡ some p = ground (arith, lookup-sort k q h.queue_dict) in
    (
      λ c f. ground (arith, (h.sound k p at').high_known b is),
      λ q. cc,
      modify_project-IsConsistent k clear_high s (λ r _ v. clear_high-IsSound s.db.build_info k r v)
          h,
    )

find_in-Fits :
    (s : Service) → IsConsistent s.db → Fits s (find_in (sort s.db.priority) s.db.priority)
unfolding find_in
find_in-Fits s h = found-Fits s _ h refl

-- The information that the database holds for a build, `null` without one.
abbrev pub stored_info : Option Build → Value
stored_info none = null
stored_info (some i) = i.test_info

abbrev pub info_of : Option String → Dict Build → Value
info_of none d = null
info_of (some b) d = stored_info (lookup b d)

fetched-ok :
    (o : Option String) (high : Bool) (s : Service)
    → ((b : String) → o ≡ some b → has b s.db.build_info ≡ true)
    → (o ≡ none → high ≡ false)
    → ((fetched o high s).0 ≡ ok (o, info_of o s.db.build_info, high))
      × ((fetched o high s).1.db ≡ s.db)
unfolding update_db
fetched-ok none high s known low = (ground (arith, low refl), refl)
fetched-ok (some b) high s known low = elim (Option-cases (lookup b s.db.build_info)) [
  | inl e ↦ absurd (ground (arith, known b refl))
  | inr (i, e) ↦ (ground arith, ground arith)
]

-- In a consistent database `get_build` returns, never raises: the build and the priority are those
-- that `find_next_build` takes out, and the information is what the database holds for that build.
-- The database is then the one that `find_next_build` leaves, and is consistent.
pub get_build-total :
    (s : Service)
    → IsConsistent s.db
    → let ((b, high), t) = find_next_build true s in
      ((get_build s).0 ≡ ok (b, info_of b s.db.build_info, high))
      × ((get_build s).1.db ≡ t.db)
      × IsConsistent (get_build s).1.db
unfolding get_build find_next_build
get_build-total s h =
    let f = find_in-Fits s h in
    let t = set_priority (λ _. (find_in (sort s.db.priority) s.db.priority).queue) s in
    let (returned, same) = fetched-ok _ _ t f.0 f.1 in
    (returned, same, subst IsConsistent (sym same) f.2)
