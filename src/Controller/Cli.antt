-- ===== src/Controller/Cli.antt =====
-- The commands of rtc_cli on builds and on the service's status.
use st_tools.Prelude.{ℕ, String, Bool, false, not, Option, none, some, List, [], ◌∷◌, if◌then◌else◌}
use st_tools.Prelude.Exec
use st_tools.Prelude.Exec.{Exec, Result, ok, err, Exn, name_error, pure, ◌>>=◌, ◌>>◌}
use st_tools.Json.{Value, truthy}
use st_tools.BuildHandler.{Status}
use st_tools.BuildHandler.Queue.{fetch_pending_build_list, priority_del}
use st_tools.BuildHandler.Builds.{fetch_build, get_build_test_result, fetch_available_builds}
use st_tools.BuildHandler.Builds
use st_tools.BuildHandler.Sweep
use st_tools.Controller.{
  World, Answer, ordered, not_paused, not_configured, test_is_ongoing, running_status, no_pending,
  nothing_to_clean, no_builds, build_missing, info_missing, no_result, results, pending, swept,
  statuses, forced, info, ongoing_test, call, call_service,
}
use st_tools.Controller.Launch.{Launch, start_hss_rtc_execution, is_null}
use st_tools.Controller.Config.{reply}

unfoldable pub status : Option String → World → World
unfolding ongoing_test
status to w =
    reply to
      (running_status w.service_paused
        (if ongoing_test w then some (w.build, w.high_priority, w.build_info) else none))
      w

abbrev found_info : String → Result Value → Answer
found_info build (ok v) = Answer.value v
found_info build (err e) = info_missing build

unfoldable pub fetch_build_test_info : Option String → String → World → World
fetch_build_test_info to build w =
    let (r, w') = call (fetch_build build) w in reply to (found_info build r) w'

unfoldable pub update_build_test_info : Option String → String → Value → Bool → World → World
update_build_test_info to build t persist w =
    if w.service_paused
    then (let (a, b) = Builds.update_build_test_info build t persist w.builds in
        reply to (info a) (record w { builds = b }))
    else reply to not_paused w

abbrev listed : List (String × Bool) → Answer
listed [] = no_pending
listed (e ∷ l) = pending (e ∷ l)

unfoldable pub fetch_pending : Option String → World → World
fetch_pending to w = reply to (listed (fetch_pending_build_list w.builds)) w

abbrev cleaned : Result ℕ → Answer
cleaned (ok n) = swept n
cleaned (err e) = nothing_to_clean

unfoldable pub clean_build : Option String → String → World → World
clean_build to wildcard w =
    let (r, w') = call (Sweep.clean_build wildcard "") w in reply to (cleaned r) w'

unfoldable pub purge_build : Option String → String → World → World
purge_build to wildcard w =
    let (n, b) = Sweep.purge_build wildcard w.builds in reply to (swept n) (record w { builds = b })

unfoldable pub set_build_status : Option String → String → Status → World → World
set_build_status to build st w =
    let (a, b) = Builds.force_build_status build st w.builds in
    reply to (forced a) (record w { builds = b })

abbrev result_list : String → List Value → Answer
result_list build [] = no_result build
result_list build (v ∷ l) = results (v ∷ l)

unfoldable pub fetch_build_test_result : Option String → String → World → World
fetch_build_test_result to build w =
    reply to (result_list build (get_build_test_result build w.builds)) w

abbrev status_list : List (String × Status) → Answer
status_list [] = no_builds
status_list (e ∷ l) = statuses (e ∷ l)

unfoldable pub fetch_builds : Option String → World → World
fetch_builds to w = reply to (status_list (fetch_available_builds w.builds)) w

-- What `force_build` finds as the information of the build: the answer of the build handler, or
-- the content of a file that the caller names, whose reader fails with `none`.
pub data Source : Type 0 where
  database : Source
  file : Option Value → Source

abbrev pub reply_ordered : Option String → World → World
reply_ordered none w = w
reply_ordered (some to) w = reply (some to) ordered w

-- From the order on: the build leaves the queue with its status, and its test starts.
unfoldable pub order_build : Option String → String → Value → Bool → Launch → Exec World (Unit {0})
order_build to build build_info high l = do
  Exec.modify (reply_ordered to)
  Exec.modify (call_service (priority_del build false))
  start_hss_rtc_execution (some build) build_info high l

abbrev pub order_found :
    Option String → String → Bool → Launch → Result Value → Exec World (Unit {0})
order_found to build high l (ok i) w =
    if is_null i then (ok tt, reply to (info_missing build) w) else order_build to build i high l w
order_found to build high l (err e) w = (ok tt, reply to (build_missing build) w)

-- The error text of the file's reader names the variable `cfg`, which is not there.
unfoldable pub order_from : Option String → String → Source → Bool → Launch → Exec World (Unit {0})
unfolding order_build
order_from to build database high l w =
    let (r, w') = call (fetch_build build) w in order_found to build high l r w'
order_from to build (file (some v)) high l w = order_build to build v high l w
order_from to build (file none) high l w = (err name_error, w)

unfoldable pub force_build : Option String → String → Source → Bool → Launch → Exec World (Unit {0})
unfolding order_from ongoing_test
force_build to build src high l w =
    if not w.service_paused
    then (ok tt, reply to not_paused w)
    else if not (truthy w.service_config)
    then (ok tt, reply to not_configured w)
    else if ongoing_test w
    then (ok tt, reply to test_is_ongoing w)
    else order_from to build src high l w
