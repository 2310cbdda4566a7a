-- ===== src/Controller/Dispatch/OneTest.antt =====
-- A test that runs is not replaced: only the shutdown of its own test tool ends it.
use st_tools.Prelude.{
  ◌≡◌, ◌⊎◌, refl, String, true, Option, none, some, arith, inl, inr, Option-cases, eq_iff,
}
use st_tools.Json.{Value}
use st_tools.Controller.{World, ongoing_test, send, clean}
use st_tools.Controller.Launch.{Launch}
use st_tools.Controller.Signals
use st_tools.Controller.Config
use st_tools.Controller.Cli
use st_tools.Controller.Releases
use st_tools.Controller.Dispatch.{
  Signal, check_priority_list, set_test_to_faulty, test_tool_ready_for_new_build, priority_increase,
  test_tool_shutdown, cli, CliCommand, answer_cli, dispatch,
}

-- The same test runs.
abbrev pub RunsOn : World → World → Type 0
RunsOn w v = (v.build ≡ w.build) × (ongoing_test v ≡ true)

check-RunsOn :
    (l : Launch) (w : World) → ongoing_test w ≡ true → RunsOn w (Signals.check_priority_list l w).1
unfolding Signals.check_priority_list Signals.next_test ongoing_test send
check-RunsOn l w h = ground arith

answer_cli-RunsOn :
    (to : Option String) (c : CliCommand) (w : World)
    → ongoing_test w ≡ true
    → RunsOn w (answer_cli to c w)
unfolding answer_cli ongoing_test
answer_cli-RunsOn to (CliCommand.force_build b s high l) w h =
    unfold Cli.force_build in ground arith
answer_cli-RunsOn to CliCommand.status w h = unfold Cli.status in (refl, h)
answer_cli-RunsOn to CliCommand.pause w h = unfold Config.pause in (refl, h)
answer_cli-RunsOn to CliCommand.resume w h = unfold Config.resume in ground arith
answer_cli-RunsOn to CliCommand.fetch_config w h = unfold Config.fetch_config in (refl, h)
answer_cli-RunsOn to CliCommand.fetch_pending w h = unfold Cli.fetch_pending in (refl, h)
answer_cli-RunsOn to CliCommand.fetch_builds w h = unfold Cli.fetch_builds in (refl, h)
answer_cli-RunsOn to (CliCommand.fetch_baseline newer) w h =
    unfold Releases.fetch_baseline in ground arith
answer_cli-RunsOn to (CliCommand.update_config cfg p) w h =
    unfold Config.update_config in ground arith
answer_cli-RunsOn to (CliCommand.activate_baseline n) w h =
    unfold Config.activate_baseline in ground arith
answer_cli-RunsOn to (CliCommand.add_baseline b) w h = unfold Config.add_baseline in (refl, h)
answer_cli-RunsOn to (CliCommand.del_baseline n c f) w h =
    unfold Config.del_baseline Config.drop_active Config.drop_and_reply in ground arith
answer_cli-RunsOn to (CliCommand.fetch_build_test_info b) w h =
    unfold Cli.fetch_build_test_info in (refl, h)
answer_cli-RunsOn to (CliCommand.fetch_build_test_result b) w h =
    unfold Cli.fetch_build_test_result in (refl, h)
answer_cli-RunsOn to (CliCommand.clean_build x) w h = unfold Cli.clean_build in (refl, h)
answer_cli-RunsOn to (CliCommand.purge_build x) w h = unfold Cli.purge_build in (refl, h)
answer_cli-RunsOn to (CliCommand.update_build_test_info b t p) w h =
    unfold Cli.update_build_test_info in ground arith
answer_cli-RunsOn to (CliCommand.set_build_status b st) w h =
    unfold Cli.set_build_status in (refl, h)

-- The signal is the shutdown of the test tool of the service's build, which forgets the test.
abbrev pub EndsBy : Signal → World → World → Type 0
EndsBy g w v =
    (b : String) × (r : Value) × (g ≡ test_tool_shutdown b r)
    × (w.build ≡ some b)
    × (v.rtc_handler ≡ none)

shutdown-ends :
    (b : String) (r : Value) (w : World)
    → ongoing_test w ≡ true
    → let v = dispatch (test_tool_shutdown b r) w in
      RunsOn w v ⊎ ((w.build ≡ some b) × (v.rtc_handler ≡ none))
unfolding dispatch Signals.test_tool_shutdown clean ongoing_test
shutdown-ends b r w h = elim (Option-cases w.build) [
  | inl e ↦ ground arith
  | inr (c, e) ↦ ground (arith, eq_iff c b)
]

-- While a test runs, every signal leaves the service with the same running test, or it is the
-- shutdown of that test's tool and the service then has no test.
pub dispatch-one_test :
    (g : Signal) (w : World)
    → ongoing_test w ≡ true
    → RunsOn w (dispatch g w) ⊎ EndsBy g w (dispatch g w)
unfolding dispatch
dispatch-one_test (check_priority_list l) w h = inl (check-RunsOn l w h)
dispatch-one_test (set_test_to_faulty b) w h =
    inl (unfold Signals.set_test_to_faulty ongoing_test in ground arith)
dispatch-one_test (test_tool_ready_for_new_build b) w h =
    inl (unfold Signals.test_tool_ready_for_new_build ongoing_test in ground arith)
dispatch-one_test (priority_increase b p) w h =
    inl (unfold Signals.priority_increase ongoing_test in ground arith)
dispatch-one_test (test_tool_shutdown b r) w h = elim (shutdown-ends b r w h) [
  | inl k ↦ inl k
  | inr (e, n) ↦ inr (b, r, refl, e, n)
]
dispatch-one_test (cli to c) w h = inl (answer_cli-RunsOn to c w h)
