-- ===== src/Gateway/Actions.antt =====
-- The actions that a trigger may name, and what each does with the build handler.
use st_tools.Prelude.{String, true, Option, none, some, ◌==◌, if◌then◌else◌}
use st_tools.Prelude.Exec
use st_tools.Prelude.Exec.{
  Exec, Result, ok, err, type_error, key_error, index_error, assertion_error, pure, lift, ◌>>=◌,
  ◌>>◌,
}
use st_tools.Json.{Value, text, arr, obj, nil, cons, truthy}
use st_tools.BuildHandler.Naming.{get_project, get_release}
use st_tools.BuildHandler.Queue
use st_tools.BuildHandler.Builds
use st_tools.BuildHandler.Baselines
use st_tools.BuildHandler.Sweep.{clean_build}
use st_tools.Gateway.{Gateway, Event, call, emit}

pub data Action : Type 0 where
  build_info_add build_info_update release_info_purge project_info_purge : Action
  check_priority_list set_test_to_faulty priority_add priority_del : Action
  priority_increase baseline_add : Action

-- The keys of the dispatcher, as `Handler.__init__` installs them.
unfoldable pub installed : String → Option Action
installed name =
    if name == "build_info_add"
    then some build_info_add
    else if name == "build_info_update"
    then some build_info_update
    else if name == "release_info_purge"
    then some release_info_purge
    else if name == "project_info_purge"
    then some project_info_purge
    else if name == "check_priority_list"
    then some check_priority_list
    else if name == "set_test_to_faulty"
    then some set_test_to_faulty
    else if name == "priority_add"
    then some priority_add
    else if name == "priority_del"
    then some priority_del
    else if name == "priority_increase"
    then some priority_increase
    else if name == "baseline_add"
    then some baseline_add
    else none

-- `assert(isinstance(test_info, dict))`
abbrev as_dict : Value → Result Value
as_dict (obj fs) = ok (obj fs)
as_dict v = err assertion_error

-- `info[0]`, which is then a dict; an element of a text is a text.
unfoldable pub first_info : Value → Result Value
first_info (arr nil) = err index_error
first_info (arr (cons v vs)) = as_dict v
first_info (obj fs) = err key_error
first_info (text s) = err (if truthy (text s) then assertion_error else index_error)
first_info v = err type_error

abbrev pub forget {ℓ} : {A : Type ℓ} → Result A → Result (Unit {0})
forget (ok a) = ok tt
forget (err e) = err e

-- A call whose result is not used.
abbrev pub done {ℓ} : {A : Type ℓ} → Exec Gateway A → Exec Gateway (Unit {0})
done m g = let (r, g') = m g in (forget r, g')

-- `DISPACHER.actions[action](build, args)`
unfoldable pub act : Action → String → Value → Exec Gateway (Unit {0})
unfolding first_info
act build_info_add build info = do
  t ← lift (first_info info)
  done (call (Builds.build_info_add build t))
act build_info_update build info = do
  t ← lift (first_info info)
  done (call (Builds.build_info_update build t))
act release_info_purge build info = done (call (clean_build (get_release build) ""))
act project_info_purge build info = done (call (clean_build (get_project build) build))
act check_priority_list build info = Exec.modify (emit Event.check_priority_list)
act set_test_to_faulty build info = Exec.modify (emit (Event.set_test_to_faulty build))
act priority_add build info = done (call (Queue.priority_add build))
act priority_del build info =
    Exec.modify (λ g. record g { builds = Queue.priority_del build true g.builds })
act priority_increase build info = do
  was_pending ← call (Queue.priority_increase build)
  Exec.modify (emit (Event.priority_increase build was_pending))
act baseline_add build info = done (call (Baselines.baseline_add build))
