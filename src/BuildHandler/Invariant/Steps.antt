-- ===== src/BuildHandler/Invariant/Steps.antt =====
-- Every method keeps the invariant.
use st_tools.Prelude.{
  ◌≡◌, ◌≢◌, String, Bool, true, false, some, arith, inl, inr, Option-cases, Bool-cases, contains,
  eq_iff, ◌==◌,
}
use mathlib.Core.Path.{subst}
use st_tools.Prelude.Dict.{
  Dict, lookup, modify, has, IsDict, lookup-modify, modify-IsDict, modify_of_missing,
}
use st_tools.BuildHandler.{
  Project, Build, Status, not_tested, Db, Service, set_priority, set_build_info, drop_idle,
  clean_priority, update_db,
}
use st_tools.BuildHandler.Naming.{get_project}
use st_tools.BuildHandler.Baselines.{lookup_baseline}
use st_tools.BuildHandler.Queue.{
  priority_add, priority_del, finish_del, skip_untested, priority_increase, enqueue, unqueue,
  promote,
}
use st_tools.BuildHandler.Invariant.Queued.{
  IsSound, not-queued-unqueue, drop_idle-lookup, unqueue-IsSound, promote-IsSound, AllSound,
  modify-AllSound, drop_idle-IsDict, drop_idle-AllSound, enqueue-IsDict, NotHigh, enqueue-AllSound,
}

-- The database is consistent.
pub record IsConsistent (d : Db) : Type 0 where
  pub queue_dict : IsDict d.priority
  pub builds_dict : IsDict d.build_info
  pub sound : AllSound d.build_info d.priority
  pub baselines_known : (k b : String) → lookup_baseline k d ≡ some b → has b d.build_info ≡ true

-- A change of the queue that keeps it sound.
pub set_priority-IsConsistent :
    (f : Dict Project → Dict Project) (s : Service)
    → IsConsistent s.db
    → IsDict (f s.db.priority)
    → AllSound s.db.build_info (f s.db.priority)
    → IsConsistent (set_priority f s).db
set_priority-IsConsistent f s h i a = record {
  queue_dict = i;
  builds_dict = h.builds_dict;
  sound = a;
  baselines_known = h.baselines_known;
}

pub clean_priority-IsConsistent :
    (s : Service) → IsConsistent s.db → IsConsistent (clean_priority s).db
unfolding clean_priority
clean_priority-IsConsistent s h =
    set_priority-IsConsistent drop_idle s h (drop_idle-IsDict s.db.priority h.queue_dict)
      (drop_idle-AllSound s.db.build_info s.db.priority h.queue_dict h.sound)

pub modify_project-IsConsistent :
    (k : String) (f : Project → Project) (s : Service)
    → ((p : Project)
        → lookup k s.db.priority ≡ some p
        → IsSound s.db.build_info k p
        → IsSound s.db.build_info k (f p))
    → IsConsistent s.db
    → IsConsistent (set_priority (modify k f) s).db
modify_project-IsConsistent k f s keep h =
    set_priority-IsConsistent (modify k f) s h (modify-IsDict k f s.db.priority h.queue_dict)
      (modify-AllSound s.db.build_info s.db.priority k f keep h.sound)

-- A change of the builds that leaves every known build known.
Kept-IsSound :
    (d e : Dict Build) (k : String) (p : Project)
    → ((b : String) → has b d ≡ true → has b e ≡ true)
    → IsSound d k p
    → IsSound e k p
Kept-IsSound d e k p kept h = record {
  distinct = h.distinct;
  pending_known = λ b q. kept b (h.pending_known b q);
  pending_here = h.pending_here;
  high_known = λ b q. kept b (h.high_known b q);
  high_here = h.high_here;
  high_not_pending = h.high_not_pending;
}

pub set_build_info-IsConsistent :
    (f : Dict Build → Dict Build) (s : Service)
    → IsConsistent s.db
    → IsDict (f s.db.build_info)
    → ((b : String) → has b s.db.build_info ≡ true → has b (f s.db.build_info) ≡ true)
    → IsConsistent (set_build_info f s).db
set_build_info-IsConsistent f s h i kept = record {
  queue_dict = h.queue_dict;
  builds_dict = i;
  sound = λ k p e. Kept-IsSound s.db.build_info (f s.db.build_info) k p kept (h.sound k p e);
  baselines_known = λ k b e. kept b (h.baselines_known k b e);
}

pub modify_build-IsConsistent :
    (k : String) (f : Build → Build) (s : Service)
    → IsConsistent s.db
    → IsConsistent (set_build_info (modify k f) s).db
modify_build-IsConsistent k f s h =
    set_build_info-IsConsistent (modify k f) s h (modify-IsDict k f s.db.build_info h.builds_dict)
      (λ b e. ground (arith, lookup-modify k b f s.db.build_info))

-- Queueing a known build that is not already of high priority.
pub priority_add-IsConsistent :
    (build : String) (s : Service)
    → IsConsistent s.db
    → NotHigh build s.db.priority
    → IsConsistent (priority_add build s).1.db
unfolding priority_add update_db
priority_add-IsConsistent build s h free = elim (Bool-cases (has build s.db.build_info)) [
  | inl e ↦ rw e (
      clean_priority-IsConsistent (set_priority (enqueue build) s) (
        set_priority-IsConsistent (enqueue build) s h
          (enqueue-IsDict build s.db.priority h.queue_dict)
          (enqueue-AllSound s.db.build_info build s.db.priority e free h.sound)))
  | inr e ↦ rw e h
]

skip_untested-IsConsistent :
    (build : String) (st : Status) (s : Service)
    → IsConsistent s.db
    → IsConsistent (skip_untested build st s).db
unfolding skip_untested
skip_untested-IsConsistent build not_tested s h = modify_build-IsConsistent build _ s h
skip_untested-IsConsistent build st s h = h

finish_del-IsConsistent :
    (build : String) (u : Bool) (s : Service)
    → IsConsistent s.db
    → IsConsistent (finish_del build u s).db
unfolding finish_del update_db
finish_del-IsConsistent build false s h = clean_priority-IsConsistent s h
finish_del-IsConsistent build true s h = elim (Option-cases (lookup build s.db.build_info)) [
  | inl e ↦ rw (e, finish_del) h
  | inr (b, e) ↦
      rw (e, finish_del)
        (clean_priority-IsConsistent (skip_untested build b.status s)
          (skip_untested-IsConsistent build b.status s h))
]

-- Taking a build out of the queue, with or without a change of its status.
pub priority_del-IsConsistent :
    (build : String) (u : Bool) (s : Service)
    → IsConsistent s.db
    → IsConsistent (priority_del build u s).db
unfolding priority_del
priority_del-IsConsistent build u s h =
    elim (Option-cases (lookup (get_project build) s.db.priority)) [
      | inl e ↦ rw (e, priority_del) h
      | inr (p, e) ↦
          rw (e, priority_del)
            (finish_del-IsConsistent build u _ (
              modify_project-IsConsistent (get_project build) (unqueue build) s
                (λ p _ q. unqueue-IsSound s.db.build_info (get_project build) p q build) h))
    ]

-- Raising a build to high priority.
pub priority_increase-IsConsistent :
    (build : String) (s : Service)
    → IsConsistent s.db
    → IsConsistent (priority_increase build s).1.db
unfolding priority_increase update_db
priority_increase-IsConsistent build s h =
    elim (Option-cases (lookup (get_project build) s.db.priority)) [
      | inl e ↦ rw e h
      | inr (p, e) ↦ rw e (
          clean_priority-IsConsistent _ (
            modify_project-IsConsistent (get_project build) (promote build) s
              (λ p _ q. promote-IsSound s.db.build_info (get_project build) p q build) h))
    ]

-- In the changed queue the build is nowhere.
unqueue-NotQueued :
    (d : Dict Build) (q : Dict Project) (a k : String) (p : Project)
    → AllSound d q
    → lookup k (modify (get_project a) (unqueue a) q) ≡ some p
    → (contains a p.pending ≡ false) × (p.high_priority ≢ some a)
unqueue-NotQueued d q a k p h e = elim (Bool-cases (get_project a == k)) [
  | inl t ↦ elim (Option-cases (lookup k q)) [
    | inl n ↦ ground (arith, lookup-modify (get_project a) k (unqueue a) q)
    | inr (r, at) ↦
        let same : unqueue a r ≡ p =
          ground (arith, lookup-modify (get_project a) k (unqueue a) q) in
        subst (λ x. (contains a x.pending ≡ false) × (x.high_priority ≢ some a)) same
          (not-queued-unqueue d k r (h k r at) a)
  ]
  | inr t ↦
      let at : lookup k q ≡ some p =
        ground (arith, lookup-modify (get_project a) k (unqueue a) q) in
      let v : IsSound d k p = h k p at in
      (
        ground
            (arith, Bool-cases (contains a p.pending), v.pending_here a, eq_iff (get_project a) k),
        λ f. ground (arith, v.high_here a f, eq_iff (get_project a) k),
      )
]

-- In a consistent database `priority_del` without a change of status leaves the build nowhere in
-- the queue.
pub priority_del-NotQueued :
    (build k : String) (p : Project) (s : Service)
    → IsConsistent s.db
    → lookup k (priority_del build false s).db.priority ≡ some p
    → (contains build p.pending ≡ false) × (p.high_priority ≢ some build)
unfolding priority_del finish_del clean_priority update_db
priority_del-NotQueued build k p s h e =
    let q = s.db.priority in
    let changed = modify (get_project build) (unqueue build) q in
    unqueue-NotQueued s.db.build_info q build k p h.sound
      (elim (Option-cases (lookup (get_project build) q)) [
        | inl n ↦ ground (arith, modify_of_missing (get_project build) (unqueue build) q n)
        | inr (r, at) ↦
            drop_idle-lookup k p changed
              (modify-IsDict (get_project build) (unqueue build) q h.queue_dict) (ground arith)
      ])
