-- ===== src/BuildHandler/Calls/Consistency.antt =====
-- Every history of calls keeps the database consistent.
use st_tools.Prelude.{
  ◌++◌, ap, ◌∙◌, ◌≡◌, refl, String, true, false, some, List, [], ◌∷◌, arith, is_some, contains,
  eq_iff, eq_refl,
}
use st_tools.Prelude.Dict.{Dict, lookup, modify, has, lookup-modify}
use st_tools.Prelude.Distinct.{contains-append}
use st_tools.BuildHandler.{
  Db, Project, Service, File, missing, garbled, stored, empty_db, refresh_dbm_from_file, update_db,
  clean_priority, drop_idle,
}
use st_tools.BuildHandler.Naming.{get_project}
use st_tools.BuildHandler.Queue.{priority_add, enqueue, add_pending}
use st_tools.BuildHandler.Invariant.{
  IsConsistent, NotHigh, get_build-total, build_info_add-IsConsistent,
  build_info_update-IsConsistent, add_build_test_result-IsConsistent, priority_add-IsConsistent,
  priority_increase-IsConsistent, baseline_add-IsConsistent, baseline_del-IsConsistent,
  purge_build-IsConsistent, priority_del-IsConsistent, update_build_status-IsConsistent,
  force_build_status-IsConsistent, update_build_test_info-IsConsistent, clean_build-IsConsistent,
}
use st_tools.BuildHandler.Calls.{
  Call, refreshes, gets_build, adds_info, updates_info, adds_result, adds_priority,
  increases_priority, adds_baseline, dels_baseline, purges, dels_priority, updates_status,
  forces_status, updates_test_info, cleans, step, run,
}

-- What a call asks of its caller: a file that is loaded holds a consistent database, and a build
-- that is queued is not of high priority already.
abbrev pub IsAllowed : Call → Service → Type 0
IsAllowed refreshes s = (d : Db) → s.file ≡ stored d → IsConsistent d
IsAllowed (adds_priority b) s = NotHigh b s.db.priority
IsAllowed _ s = Unit

abbrev pub AreAllowed : List Call → Service → Type 0
AreAllowed [] s = Unit
AreAllowed (c ∷ cs) s = IsAllowed c s × AreAllowed cs (step c s)

refresh-IsConsistent :
    (s : Service) (f : File)
    → s.file ≡ f
    → ((d : Db) → s.file ≡ stored d → IsConsistent d)
    → IsConsistent s.db
    → IsConsistent (step refreshes s).db
unfolding step refresh_dbm_from_file
refresh-IsConsistent s missing e allowed h = rw (e, refresh_dbm_from_file) h
refresh-IsConsistent s garbled e allowed h = rw (e, refresh_dbm_from_file) h
refresh-IsConsistent s (stored d) e allowed h = rw (e, refresh_dbm_from_file) (allowed d e)

-- Every call that is allowed keeps the database consistent, also when it raises.
pub step-IsConsistent :
    (c : Call) (s : Service) → IsAllowed c s → IsConsistent s.db → IsConsistent (step c s).db
unfolding step
step-IsConsistent refreshes s a h = unfold step in refresh-IsConsistent s s.file refl a h
step-IsConsistent gets_build s a h = (get_build-total s h).2
step-IsConsistent (adds_info b i) s a h = build_info_add-IsConsistent b i s h
step-IsConsistent (updates_info b i) s a h = build_info_update-IsConsistent b i s h
step-IsConsistent (adds_result b r) s a h = add_build_test_result-IsConsistent b r s h
step-IsConsistent (adds_priority b) s a h = priority_add-IsConsistent b s h a
step-IsConsistent (increases_priority b) s a h = priority_increase-IsConsistent b s h
step-IsConsistent (adds_baseline b) s a h = baseline_add-IsConsistent b s h
step-IsConsistent (dels_baseline n) s a h = baseline_del-IsConsistent n s h
step-IsConsistent (purges w) s a h = purge_build-IsConsistent w s h
step-IsConsistent (dels_priority b u) s a h = priority_del-IsConsistent b u s h
step-IsConsistent (updates_status b st) s a h = update_build_status-IsConsistent b st s h
step-IsConsistent (forces_status b st) s a h = force_build_status-IsConsistent b st s h
step-IsConsistent (updates_test_info b t p) s a h = update_build_test_info-IsConsistent b t p s h
step-IsConsistent (cleans w x) s a h = clean_build-IsConsistent w x s h

-- From a consistent database every history of allowed calls ends in one.
pub run-IsConsistent :
    (cs : List Call) (s : Service)
    → AreAllowed cs s
    → IsConsistent s.db
    → IsConsistent (run cs s).db
unfolding run
run-IsConsistent [] s a h = h
run-IsConsistent (c ∷ cs) s a h = run-IsConsistent cs (step c s) a.1 (step-IsConsistent c s a.0 h)

pub empty_db-IsConsistent : IsConsistent empty_db
unfolding empty_db lookup
empty_db-IsConsistent = record {
  queue_dict = tt;
  builds_dict = tt;
  sound = λ k p e. cc;
  baselines_known = λ k b e. cc;
}

drop_idle-lookup_kept :
    (k : String) (p : Project) (q : Dict Project)
    → is_some p.high_priority ≡ true
    → lookup k q ≡ some p
    → lookup k (drop_idle q) ≡ some p
unfolding lookup drop_idle
drop_idle-lookup_kept k p [] b e = e
drop_idle-lookup_kept k p ((j, r) ∷ q) b e = ground (arith, eq_iff j k, drop_idle-lookup_kept k p q)

add_pending_high :
    (build : String) (p : Project)
    → p.high_priority ≡ some build
    → (contains build (add_pending build p).pending ≡ true)
      × ((add_pending build p).high_priority ≡ some build)
unfolding add_pending contains
add_pending_high build p high =
    ground (arith, contains-append build p.pending (build ∷ []), eq_refl build)

added :
    (build : String) (p : Project)
    → p.high_priority ≡ some build
    → contains build p.pending ≡ false
    → some (add_pending build p)
      ≡ some (record { pending = p.pending ++ build ∷ []; high_priority = some build })
unfolding add_pending
added build p high out =
    rw out (ap (λ o. some (record { pending = p.pending ++ build ∷ []; high_priority = o })) high)

-- Where a known build of high priority is queued again, in a consistent database, the build then stands
-- twice in its project: it keeps its high priority, and comes last among the pending builds too, after
-- those that there were. So the database is no longer consistent.
pub priority_add_twice :
    (build : String) (p : Project) (s : Service)
    → has build s.db.build_info ≡ true
    → lookup (get_project build) s.db.priority ≡ some p
    → p.high_priority ≡ some build
    → IsConsistent s.db
    → (lookup (get_project build) (priority_add build s).1.db.priority
        ≡ some (record { pending = p.pending ++ build ∷ []; high_priority = some build }))
      × ¬ IsConsistent (priority_add build s).1.db
unfolding priority_add enqueue clean_priority update_db
priority_add_twice build p s known at high sane =
    let k = get_project build in
    let r = add_pending build p in
    let (twice, still) = add_pending_high build p high in
    let q = modify k (add_pending build) s.db.priority in
    let found : lookup k q ≡ some r =
      ground (arith, lookup-modify k k (add_pending build) s.db.priority, eq_refl k) in
    let left : lookup k (priority_add build s).1.db.priority ≡ some r =
      ground (arith, drop_idle-lookup_kept k r q (ground arith) found) in
    (
      left ∙ added build p high ((sane.sound k p at).high_not_pending build high),
      λ v. ground (arith, twice, (v.sound k r left).high_not_pending build still),
    )
