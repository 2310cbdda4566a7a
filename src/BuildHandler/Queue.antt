-- ===== src/BuildHandler/Queue.antt =====
-- The queue of builds: each project has its pending builds, oldest first, and at most one build of
-- high priority.
pub mod Order
pub mod Enqueued
use st_tools.Prelude.{
  String, Bool, true, false, not, Option, none, some, List, [], ◌∷◌, ◌++◌, map, reverse, contains,
  remove, after, last?, drop_last, is_some, ◌==◌, if◌then◌else◌,
}
use st_tools.Prelude.Dict.{Dict, lookup, insert, modify, has}
use st_tools.Prelude.Exec
use st_tools.Prelude.Exec.{
  Exec, Result, ok, err, Exn, unknown_build, not_pending, key_error, pure, gets, or_raise, raise_if,
  ◌>>=◌, ◌>>◌,
}
use st_tools.Json.{Value, null}
use st_tools.Version.Sort.{sort}
use st_tools.BuildHandler.{
  Project, Status, not_tested, skipped, Service, set_priority, set_status, clean_priority,
  update_db,
}
use st_tools.BuildHandler.Naming.{get_project}

-- `pending.append(build)`, once
unfoldable pub add_pending : String → Project → Project
add_pending build p =
    if contains build p.pending then p else record p { pending = p.pending ++ build ∷ [] }

-- A project with one pending build.
abbrev pub only : String → Project
only build = record { pending = build ∷ []; high_priority = none }

unfoldable pub enqueue : String → Dict Project → Dict Project
unfolding add_pending
enqueue build d = elim (lookup (get_project build) d) [
  | none ↦ insert (get_project build) (only build) d
  | some p ↦ modify (get_project build) (add_pending build) d
]

unfoldable pub priority_add : String → Exec Service Bool
priority_add build = do
  raise_if (not (has build (← gets (λ s. s.db.build_info)))) (unknown_build build)
  Exec.modify (set_priority (enqueue build))
  Exec.modify clean_priority
  Exec.modify update_db
  pure true

abbrev pub is_high : String → Project → Bool
is_high build p = elim p.high_priority [ none ↦ false | some b ↦ b == build ]

unfoldable pub unqueue : String → Project → Project
unqueue build p =
    if contains build p.pending
    then record p { pending = remove build p.pending }
    else if is_high build p
    then record p { high_priority = none }
    else p

-- `NOT_TESTED` becomes `SKIPPED`
unfoldable pub skip_untested : String → Status → Service → Service
skip_untested build not_tested s = set_status build skipped s
skip_untested build st s = s

-- The end of `priority_del`; a build that the database lacks leaves the change unsaved.
unfoldable pub finish_del : String → Bool → Service → Service
unfolding skip_untested
finish_del build false s = update_db (clean_priority s)
finish_del build true s = elim (lookup build s.db.build_info) [
  | none ↦ s
  | some b ↦ update_db (clean_priority (skip_untested build b.status s))
]

unfoldable pub priority_del : String → Bool → Service → Service
unfolding finish_del
priority_del build update_status s = elim (lookup (get_project build) s.db.priority) [
  | none ↦ s
  | some p ↦
      finish_del build update_status (set_priority (modify (get_project build) (unqueue build)) s)
]

-- The build takes the place of high priority, and the pending builds up to it are dropped.
unfoldable pub promote : String → Project → Project
promote build p =
    if contains build p.pending
    then record { pending = after build p.pending; high_priority = some build }
    else p

unfoldable pub priority_increase : String → Exec Service Bool
priority_increase build = do
  p ← or_raise (← gets (λ s. lookup (get_project build) s.db.priority)) (not_pending build)
  Exec.modify (set_priority (modify (get_project build) (promote build)))
  Exec.modify clean_priority
  Exec.modify update_db
  pure (contains build p.pending)

-- The first project with a build of high priority.
unfoldable pub first_high : Dict Project → Option (String × String)
first_high [] = none
first_high ((k, p) ∷ d) = elim p.high_priority [ none ↦ first_high d | some b ↦ some (k, b) ]

-- The first project with pending builds, and the newest of these.
unfoldable pub first_pending : Dict Project → Option (String × String)
first_pending [] = none
first_pending ((k, p) ∷ d) = elim (last? p.pending) [
  | none ↦ first_pending d
  | some b ↦ some (k, b)
]

unfoldable pub clear_high : Project → Project
clear_high p = record p { high_priority = none }

unfoldable pub pop_pending : Project → Project
pop_pending p = record p { pending = drop_last p.pending }

-- What is found, with the queue that an extraction leaves.
pub record Found : Type 0 where
  pub build : Option String
  pub high : Bool
  pub queue : Dict Project

unfoldable pub found_pending : Dict Project → Option (String × String) → Found
unfolding pop_pending
found_pending q none = record { build = none; high = false; queue = q }
found_pending q (some (k, b)) = record {
  build = some b;
  high = false;
  queue = modify k pop_pending q;
}

unfoldable pub found : Dict Project → Dict Project → Option (String × String) → Found
unfolding clear_high first_pending found_pending
found projects q none = found_pending q (first_pending (reverse projects))
found projects q (some (k, b)) = record {
  build = some b;
  high = true;
  queue = modify k clear_high q;
}

unfoldable pub find_in : Dict Project → Dict Project → Found
unfolding first_high found
find_in projects q = found projects q (first_high projects)

-- Builds of high priority go first, those of the oldest project before; then the pending builds
-- from the newest project on, the newest build of a project first.
unfoldable pub find_next_build : Bool → Service → (Option String × Bool) × Service
find_next_build extract s =
    let f = find_in (sort s.db.priority) s.db.priority in
    ((f.build, f.high), if extract then set_priority (λ _. f.queue) s else s)

unfoldable pub is_there_build_to_test : Service → Bool
unfolding find_next_build
is_there_build_to_test s = is_some (find_next_build false s).0.0

-- The end of `get_build`: `(None, None, False)` when nothing is queued.
abbrev pub fetched : Option String → Bool → Exec Service (Option String × Value × Bool)
fetched none high = pure (none, null, false)
fetched (some b) high = do
  Exec.modify update_db
  i ← or_raise (← gets (λ s. lookup b s.db.build_info)) key_error
  pure (some b, i.test_info, high)

unfoldable pub get_build : Exec Service (Option String × Value × Bool)
unfolding find_next_build
get_build s = let r = find_next_build true s in fetched r.0.0 r.0.1 r.1

unfoldable pub list_high : Dict Project → List (String × Bool)
list_high [] = []
list_high ((k, p) ∷ d) = elim p.high_priority [
  | none ↦ list_high d
  | some b ↦ (b, true) ∷ list_high d
]

abbrev pub as_pending : String → String × Bool
as_pending b = (b, false)

unfoldable pub list_pending : Dict Project → List (String × Bool)
list_pending [] = []
list_pending ((k, p) ∷ d) = map as_pending (reverse p.pending) ++ list_pending d

unfoldable pub fetch_pending_build_list : Service → List (String × Bool)
unfolding list_high list_pending
fetch_pending_build_list s =
    let projects = sort s.db.priority in list_high projects ++ list_pending (reverse projects)
