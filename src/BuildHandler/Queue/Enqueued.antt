-- ===== src/BuildHandler/Queue/Enqueued.antt =====
-- A build that is added to the queue waits in its project.
use st_tools.Prelude.{
  ◌≡◌, String, true, some, [], ◌∷◌, arith, inl, inr, Option-cases, contains, eq_iff, eq_refl,
}
use st_tools.Prelude.Dict.{Dict, lookup, has, lookup-insert, lookup-modify}
use st_tools.Prelude.Distinct.{contains-append}
use st_tools.Prelude.Exec.{ok}
use st_tools.BuildHandler.{Project, Service, drop_idle, clean_priority, update_db}
use st_tools.BuildHandler.Naming.{get_project}
use st_tools.BuildHandler.Queue.{add_pending, enqueue, only, priority_add}

-- The build waits in its project.
abbrev pub IsQueued : String → Service → Type 0
IsQueued b s =
    (p : Project) × (lookup (get_project b) s.db.priority ≡ some p) × (contains b p.pending ≡ true)

drop_idle-lookup_pending :
    (k b : String) (p : Project) (q : Dict Project)
    → contains b p.pending ≡ true
    → lookup k q ≡ some p
    → lookup k (drop_idle q) ≡ some p
unfolding lookup drop_idle contains
drop_idle-lookup_pending k b p [] c e = e
drop_idle-lookup_pending k b p ((j, r) ∷ q) c e =
    ground (arith, eq_iff j k, drop_idle-lookup_pending k b p q)

add_pending-contains : (b : String) (p : Project) → contains b (add_pending b p).pending ≡ true
unfolding add_pending contains
add_pending-contains b p = ground (arith, contains-append b p.pending (b ∷ []), eq_refl b)

only-contains : (b : String) → contains b (only b).pending ≡ true
unfolding contains
only-contains b = ground (arith, eq_refl b)

enqueue-contains :
    (b : String) (q : Dict Project)
    → (p : Project) × (lookup (get_project b) (enqueue b q) ≡ some p)
      × (contains b p.pending ≡ true)
unfolding enqueue
enqueue-contains b q =
    let k = get_project b in
    elim (Option-cases (lookup k q)) [
      | inl e ↦
          simp (e, enqueue)
            (only b, ground (arith, lookup-insert k k (only b) q, eq_refl k), only-contains b)
      | inr (p, e) ↦
          simp (e, enqueue)
            (
              add_pending b p,
              ground (arith, lookup-modify k k (add_pending b) q, eq_refl k),
              add_pending-contains b p,
            )
    ]

-- A known build that is added to the queue waits there, and the builds stay as they were.
pub priority_add_known :
    (b : String) (s : Service)
    → has b s.db.build_info ≡ true
    → let (r, t) = priority_add b s in
      (r ≡ ok true) × (t.db.build_info ≡ s.db.build_info) × IsQueued b t
unfolding priority_add clean_priority update_db
priority_add_known b s known =
    let (p, at, c) = enqueue-contains b s.db.priority in
    (
      ground arith,
      ground arith,
      (
        p,
        ground (arith, drop_idle-lookup_pending (get_project b) b p (enqueue b s.db.priority) c at),
        c,
      ),
    )
