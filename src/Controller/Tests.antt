-- ===== src/Controller/Tests.antt =====
-- A controller with builds to test, before, during and after a test.
use st_tools.Prelude.Text.{split, join}
use st_tools.Controller.Releases.{release_of_link, release_name}
use st_tools.Prelude.{◌≡◌, ◌⊎◌, refl, String, true, false, none, some, [], ◌∷◌, ◌++◌, if◌then◌else◌}
use st_tools.Prelude.Dict.{lookup, has}
use st_tools.Json.{Value, null, obj, field, end, text, truthy, get_item, find}
use st_tools.BuildHandler.{Build, tested, test_ongoing, test_faulty}
use st_tools.BuildHandler.Queue.{fetch_pending_build_list, is_there_build_to_test}
use st_tools.BuildHandler.Builds.{get_build_status, get_build_test_result}
use st_tools.BuildHandler.Invariant.{info_of}
use st_tools.BuildHandler.Tests.{busy, busy_db, busy_list, busy-IsConsistent, info}
use st_tools.Controller.{Event, World, stored, init, ongoing_test, command, quit, resume}
use st_tools.Controller.Launch.{
  started, not_prepared, launch, can_create, baseline, base_release, returns, is_null,
}
use st_tools.Controller.Dispatch.{
  Signal, check_priority_list, test_tool_shutdown, cli, CliCommand, answer_cli, dispatch, here,
  next, handles,
}
use st_tools.Controller.Dispatch.Coherence.{IsCoherent, Reach-IsCoherent}
use st_tools.Controller.Dispatch.OneTest.{RunsOn, EndsBy, dispatch-one_test}
use st_tools.Controller.Dispatch.Progress.{launch-status, check_starts}
use st_tools.Controller.Dispatch.Shutdown.{shutdown_records}
use st_tools.Controller.Dispatch.Refusals.{dispatch_paused, check_priority_list-sent}
use st_tools.Controller.Dispatch.Answers.{Answers, answer_cli-Answers}

abbrev config : Value
config = obj (field "service_parameters" (obj (field "base_release" (text "1.28") end)) end)

abbrev first : String
first = "HSS-1.9.1.1"

abbrev waiting : World
waiting = record {
  rtc_handler = none;
  service_paused = false;
  current_test_can_be_stopped = false;
  service_config = config;
  config_file = stored config;
  build = none;
  build_info = null;
  high_priority = false;
  builds = busy;
  sent = [];
}

abbrev running : World
running = record waiting {
  rtc_handler =
      some (record {
        build = some first;
        high_priority = false;
        ongoing_test = true;
        connected = true;
      });
  build = some first;
  build_info = info;
  current_test_can_be_stopped = true;
}

abbrev paused : World
paused = record running { service_paused = true }

is_running : ongoing_test running ≡ true
unfolding ongoing_test
is_running = refl

is_waiting : ongoing_test waiting ≡ false
unfolding ongoing_test
is_waiting = refl

can_start : can_create started config ≡ true
unfolding can_create baseline base_release truthy get_item find
can_start = refl

first_info : is_null (info_of (some first) busy_db.build_info) ≡ false
unfolding lookup
first_info = refl

check_starts_example :
    (ongoing_test (dispatch (check_priority_list started) waiting) ≡ true)
    × ((dispatch (check_priority_list started) waiting).build ≡ some first)
    × ((dispatch (check_priority_list started) waiting).high_priority ≡ true)
    × (get_build_status first (dispatch (check_priority_list started) waiting).builds
        ≡ some test_ongoing)
    × (fetch_pending_build_list (dispatch (check_priority_list started) waiting).builds
        ≡ ("HSS-1.10.1.2", false) ∷ ("HSS-1.10.1.1", false) ∷ [])
check_starts_example =
    check_starts first true (("HSS-1.10.1.2", false) ∷ ("HSS-1.10.1.1", false) ∷ []) waiting refl
      is_waiting refl busy-IsConsistent busy_list first_info can_start

first_known : has first busy_db.build_info ≡ true
unfolding lookup
first_known = refl

launch-status_example :
    (get_build_status first (launch not_prepared (record waiting { build = some first })).builds
      ≡ some (
          if ongoing_test (launch not_prepared (record waiting { build = some first }))
          then test_ongoing
          else test_faulty))
    × ((launch not_prepared (record waiting { build = some first })).build ≡ (
        if ongoing_test (launch not_prepared (record waiting { build = some first }))
        then some first
        else none))
launch-status_example =
    launch-status not_prepared first (record waiting { build = some first }) refl refl first_known

abbrev resumes : Signal
resumes = cli (some "cli") CliCommand.resume

Reach-IsCoherent_example :
    IsCoherent
      (dispatch (check_priority_list started) (dispatch resumes (init (stored config) busy)))
Reach-IsCoherent_example =
    Reach-IsCoherent (stored config) busy
      (next (next here (handles resumes)) (handles (check_priority_list started)))

dispatch-one_test_example :
    RunsOn running (dispatch (test_tool_shutdown first null) running)
    ⊎ EndsBy
        (test_tool_shutdown first null)
        running
        (dispatch (test_tool_shutdown first null) running)
dispatch-one_test_example = dispatch-one_test (test_tool_shutdown first null) running is_running

check_priority_list-sent_example :
    ((dispatch (check_priority_list started) running).sent ≡ [])
    ⊎ ((dispatch (check_priority_list started) running
          ≡ record running { sent = [] ++ command quit ∷ [] })
        × (false ≡ false)
        × (ongoing_test running ≡ true)
        × (true ≡ true)
        × (is_there_build_to_test busy ≡ true))
check_priority_list-sent_example = check_priority_list-sent started running

dispatch_paused_example :
    (dispatch (check_priority_list started) paused ≡ paused)
    ⊎ (dispatch (check_priority_list started) paused
        ≡ record paused { sent = [] ++ command resume ∷ [] })
dispatch_paused_example = dispatch_paused (check_priority_list started) paused refl refl

config_read : returns (baseline config) ≡ true
unfolding baseline base_release get_item find
config_read = refl

answer_cli-Answers_example :
    Answers
      (some "cli")
      waiting
      (answer_cli (some "cli") (CliCommand.del_baseline "1.28" true true) waiting)
answer_cli-Answers_example =
    answer_cli-Answers (some "cli") (CliCommand.del_baseline "1.28" true true) waiting refl
      config_read

release_of_a_build :
    release_name (λ b. true) "HSS-1.28.3.1" "http://repo/esm/19089-CXS101-R1A-B02_up.tar"
    ≡ "R1A_B02_1.28.3.1"
unfolding release_name release_of_link split join
release_of_a_build = refl

abbrev tested_build : Build
tested_build = record { test_info = info; test_result = []; status = test_ongoing }

abbrev testing : World
testing = record running {
  builds = record busy { db = record busy_db { build_info = (first, tested_build) ∷ [] } };
}

testing_known : lookup first testing.builds.db.build_info ≡ some tested_build
unfolding lookup
testing_known = refl

shutdown_records_example :
    (get_build_status first (dispatch (test_tool_shutdown first info) testing).builds ≡ some tested)
    × (get_build_test_result first (dispatch (test_tool_shutdown first info) testing).builds
        ≡ [] ++ info ∷ [])
    × ((dispatch (test_tool_shutdown first info) testing).build ≡ none)
    × ((dispatch (test_tool_shutdown first info) testing).high_priority ≡ false)
    × (ongoing_test (dispatch (test_tool_shutdown first info) testing) ≡ false)
    × ((dispatch (test_tool_shutdown first info) testing).sent
        ≡ [] ++ Event.check_priority_list ∷ [])
shutdown_records_example = shutdown_records first info tested_build testing refl testing_known refl
