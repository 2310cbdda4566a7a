-- ===== src/BuildHandler/Tests.antt =====
-- A build handler with three builds in two projects, and what its operations do there.
use mathlib.Core.Path.{subst}
use st_tools.Prelude.{
  ◌++◌, ◌≡◌, ◌≢◌, refl, true, false, none, some, List, [], ◌∷◌, contains, after, remove,
}
use st_tools.Prelude.Dict.{lookup, insert, modify, has, IsDict}
use st_tools.Prelude.Exec.{ok}
use st_tools.Json.{Value, obj, field, end, text}
use st_tools.Version.{version_le}
use st_tools.Version.Sort.{sort}
use st_tools.BuildHandler.{
  not_tested, Build, Project, Db, Service, missing, stored, empty_db, update_db, drop_idle,
  clean_priority,
}
use st_tools.BuildHandler.Naming.{get_project, get_release, baseline_of}
use st_tools.BuildHandler.Queue.{
  priority_add, priority_del, priority_increase, enqueue, add_pending, unqueue, promote,
  find_next_build, fetch_pending_build_list, get_build,
}
use st_tools.BuildHandler.Queue.Order.{find_next_build_serves_list, first_of, rest_of}
use st_tools.BuildHandler.Builds.{build_info_add}
use st_tools.BuildHandler.Invariant.{IsConsistent, get_build-total, info_of, priority_del-NotQueued}
use st_tools.BuildHandler.Calls.{
  Call, adds_info, adds_priority, increases_priority, gets_build, cleans, step, run,
}
use st_tools.BuildHandler.Calls.Consistency.{
  AreAllowed, step-IsConsistent, run-IsConsistent, empty_db-IsConsistent, priority_add_twice,
}
use st_tools.BuildHandler.Calls.Saved.{IsSaved, step-IsSaved}

names_of_a_build : baseline_of (get_release "HSS-1.28.2.20") ≡ "1.28"
unfolding baseline_of get_release
names_of_a_build = refl

project_of_a_build : get_project "HSS-1.28.2.20" ≡ "HSS-1.28.2"
unfolding get_project
project_of_a_build = refl

abbrev pub info : Value
info = obj (field "release" (text "1.28") end)

abbrev untested : Build
untested = record { test_info = info; test_result = []; status = not_tested }

abbrev empty : Service
empty = record { db = empty_db; file = missing }

abbrev calls : List Call
calls =
    adds_info "HSS-1.9.1.1" info
    ∷ adds_info "HSS-1.10.1.1" info
    ∷ adds_info "HSS-1.10.1.2" info
    ∷ adds_priority "HSS-1.9.1.1"
    ∷ adds_priority "HSS-1.10.1.1"
    ∷ adds_priority "HSS-1.10.1.2"
    ∷ increases_priority "HSS-1.9.1.1"
    ∷ []

abbrev pub busy_db : Db
busy_db = record {
  priority =
      ("HSS-1.9.1", record { pending = []; high_priority = some "HSS-1.9.1.1" })
      ∷ (
        "HSS-1.10.1",
        record { pending = "HSS-1.10.1.1" ∷ "HSS-1.10.1.2" ∷ []; high_priority = none },
      )
      ∷ [];
  build_info =
      ("HSS-1.9.1.1", untested) ∷ ("HSS-1.10.1.1", untested) ∷ ("HSS-1.10.1.2", untested) ∷ [];
  baselines = some [];
}

abbrev pub busy : Service
busy = record { db = busy_db; file = stored busy_db }

calls-busy : run calls empty ≡ busy
unfolding run step build_info_add priority_add priority_increase update_db empty_db insert lookup
    enqueue add_pending modify clean_priority drop_idle promote get_project contains after
calls-busy = refl

calls_allowed : AreAllowed calls empty
unfolding step build_info_add priority_add update_db empty_db insert lookup enqueue add_pending
    modify clean_priority drop_idle get_project contains
calls_allowed = (tt, (tt, (tt, (λ p e f. cc, (λ p e f. cc, (λ p e f. cc, (tt, tt)))))))

pub busy-IsConsistent : IsConsistent busy_db
busy-IsConsistent =
    subst (λ s. IsConsistent s.db) calls-busy
      (run-IsConsistent calls empty calls_allowed empty_db-IsConsistent)

busy_queue : IsDict busy_db.priority
unfolding lookup
busy_queue = (refl, (refl, tt))

pub busy_list :
    fetch_pending_build_list busy
    ≡ ("HSS-1.9.1.1", true) ∷ ("HSS-1.10.1.2", false) ∷ ("HSS-1.10.1.1", false) ∷ []
unfolding fetch_pending_build_list sort version_le
busy_list = refl

find_next_build_serves_list_example :
    ((find_next_build true busy).0 ≡ first_of (fetch_pending_build_list busy))
    × (fetch_pending_build_list (find_next_build true busy).1
        ≡ rest_of (fetch_pending_build_list busy))
    × (find_next_build false busy ≡ (first_of (fetch_pending_build_list busy), busy))
find_next_build_serves_list_example = find_next_build_serves_list busy busy_queue

get_build-total_example :
    ((get_build busy).0
      ≡ ok (
        (find_next_build true busy).0.0,
        info_of (find_next_build true busy).0.0 busy_db.build_info,
        (find_next_build true busy).0.1,
      ))
    × ((get_build busy).1.db ≡ (find_next_build true busy).1.db)
    × IsConsistent (get_build busy).1.db
get_build-total_example = get_build-total busy busy-IsConsistent

step-IsConsistent_example : IsConsistent (step (cleans "HSS-1.10" "HSS-1.10.1.2") busy).db
step-IsConsistent_example =
    step-IsConsistent (cleans "HSS-1.10" "HSS-1.10.1.2") busy tt busy-IsConsistent

step-IsSaved_example : IsSaved (step gets_build busy)
step-IsSaved_example = step-IsSaved gets_build busy tt refl

abbrev left : Project
left = record { pending = "HSS-1.10.1.2" ∷ []; high_priority = none }

left_there : lookup "HSS-1.10.1" (priority_del "HSS-1.10.1.1" false busy).db.priority ≡ some left
unfolding lookup priority_del update_db clean_priority drop_idle modify get_project contains unqueue
    remove
left_there = refl

priority_del-NotQueued_example :
    (contains "HSS-1.10.1.1" left.pending ≡ false) × (left.high_priority ≢ some "HSS-1.10.1.1")
priority_del-NotQueued_example =
    priority_del-NotQueued "HSS-1.10.1.1" "HSS-1.10.1" left busy busy-IsConsistent left_there

busy_knows : has "HSS-1.9.1.1" busy_db.build_info ≡ true
unfolding lookup
busy_knows = refl

abbrev raised : Project
raised = record { pending = []; high_priority = some "HSS-1.9.1.1" }

raised_there : lookup (get_project "HSS-1.9.1.1") busy_db.priority ≡ some raised
unfolding lookup get_project
raised_there = refl

priority_add_twice_example :
    (lookup (get_project "HSS-1.9.1.1") (priority_add "HSS-1.9.1.1" busy).1.db.priority
      ≡ some (record { pending = [] ++ "HSS-1.9.1.1" ∷ []; high_priority = some "HSS-1.9.1.1" }))
    × ¬ IsConsistent (priority_add "HSS-1.9.1.1" busy).1.db
priority_add_twice_example =
    priority_add_twice "HSS-1.9.1.1" raised busy busy_knows raised_there refl busy-IsConsistent
