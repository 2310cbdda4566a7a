-- ===== src/Controller/Dispatch/Shutdown.antt =====
-- The end of a test, as the test tool reports it.
use st_tools.Prelude.{◌≡◌, String, false, none, some, [], ◌∷◌, ◌++◌, arith, eq_refl}
use st_tools.Prelude.Dict.{lookup, lookup-modify}
use st_tools.Json.{Value}
use st_tools.BuildHandler.{Build, tested, test_ongoing, update_db}
use st_tools.BuildHandler.Builds.{
  add_result, add_build_test_result, get_build_test_result, get_build_status,
}
use st_tools.Controller.{World, Event, ongoing_test, clean}
use st_tools.Controller.Signals
use st_tools.Controller.Dispatch.{test_tool_shutdown, dispatch}

-- When the test tool of the service's own build shuts down, and the database has the build as
-- under test: its status is `TESTED`, the result stands at the end of its results, the service has
-- neither a test nor a build and is off the high priority, and asks for a check of the priority
-- list.
pub shutdown_records :
    (b : String) (r : Value) (e : Build) (w : World)
    → w.build ≡ some b
    → lookup b w.builds.db.build_info ≡ some e
    → e.status ≡ test_ongoing
    → let v = dispatch (test_tool_shutdown b r) w in
      (get_build_status b v.builds ≡ some tested)
      × (get_build_test_result b v.builds ≡ e.test_result ++ r ∷ [])
      × (v.build ≡ none)
      × (v.high_priority ≡ false)
      × (ongoing_test v ≡ false)
      × (v.sent ≡ w.sent ++ Event.check_priority_list ∷ [])
unfolding dispatch Signals.test_tool_shutdown clean ongoing_test add_build_test_result add_result
    get_build_status get_build_test_result update_db
shutdown_records b r e w own known under_test =
    ground (arith, lookup-modify b b (add_result r) w.builds.db.build_info, eq_refl b)
