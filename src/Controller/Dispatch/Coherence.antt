-- ===== src/Controller/Dispatch/Coherence.antt =====
-- A running test is a test of the service's own build, with its priority.
use st_tools.Prelude.{◌≡◌, String, Bool, true, false, Option, none, some, arith, inl, inr, is_some}
use st_tools.Prelude.Exec.{Result, ok, err}
use st_tools.Json.{Value, null}
use st_tools.Controller.{
  RtcHandler, World, call_service, ConfigFile, init, ongoing_test, send, clean,
}
use st_tools.BuildHandler.{Service}
use st_tools.Controller.Launch.{
  Launch, started, created, report, fail, launch, start_hss_rtc_execution,
}
use st_tools.Controller.Launch.Outcome.{start-cases}
use st_tools.Controller.Signals
use st_tools.Controller.Config
use st_tools.Controller.Cli
use st_tools.Controller.Releases
use st_tools.Controller.Cli.{Source, database, file, reply_ordered, order_found}
use st_tools.BuildHandler.Builds.{fetch_build}
use st_tools.BuildHandler.Queue.{priority_del}
use st_tools.Controller.Dispatch.{
  Signal, check_priority_list, set_test_to_faulty, test_tool_ready_for_new_build, priority_increase,
  test_tool_shutdown, cli, CliCommand, answer_cli, dispatch, Step, handles, ends, gives_up, Reach,
  here, next,
}

-- What a handler says of the test that the service has stored.
abbrev pub IsOf : World → RtcHandler → Type 0
IsOf w r =
    r.ongoing_test ≡ true
    → (r.build ≡ w.build) × (is_some w.build ≡ true) × (r.high_priority ≡ w.high_priority)

abbrev Fits : World → Option RtcHandler → Type 0
Fits w none = Unit
Fits w (some r) = IsOf w r

abbrev pub IsCoherent : World → Type 0
IsCoherent w = Fits w w.rtc_handler

launch-IsCoherent : (l : Launch) (w : World) → is_some w.build ≡ true → IsCoherent (launch l w)
unfolding launch fail clean report created
launch-IsCoherent started w b = ground arith
launch-IsCoherent _ w b = ground arith

-- A test is started only where none runs.
start-IsCoherent :
    (b : Option String) (i : Value) (h : Bool) (l : Launch) (w : World)
    → ongoing_test w ≡ false
    → IsCoherent (start_hss_rtc_execution b i h l w).1
unfolding ongoing_test
start-IsCoherent b i h l w idle = elim (start-cases b i h l w) [
  | inl (v, s, e) ↦ rw e (ground (arith, s.same_handler))
  | inr (v, s, some_build, e) ↦ rw e (launch-IsCoherent l v some_build)
]

check-IsCoherent :
    (l : Launch) (w : World) → IsCoherent w → IsCoherent (Signals.check_priority_list l w).1
unfolding Signals.check_priority_list Signals.next_test send
check-IsCoherent l w h = ground (arith, start-IsCoherent none null false l w)

set_test_to_faulty-IsCoherent :
    (b : String) (w : World) → IsCoherent w → IsCoherent (Signals.set_test_to_faulty b w)
unfolding Signals.set_test_to_faulty
set_test_to_faulty-IsCoherent b w h = ground arith

priority_increase-IsCoherent :
    (b : String) (p : Bool) (w : World)
    → IsCoherent w
    → IsCoherent (Signals.priority_increase b p w)
unfolding Signals.priority_increase
priority_increase-IsCoherent b p w h = ground arith

ready-IsCoherent :
    (b : String) (w : World)
    → IsCoherent w
    → IsCoherent (Signals.test_tool_ready_for_new_build b w).1
unfolding Signals.test_tool_ready_for_new_build
ready-IsCoherent b w h = ground arith

shutdown-IsCoherent :
    (b : String) (r : Value) (w : World)
    → IsCoherent w
    → IsCoherent (Signals.test_tool_shutdown b r w)
unfolding Signals.test_tool_shutdown
shutdown-IsCoherent b r w h = ground arith

ordered-idle :
    (to : Option String) (b : String) (w : World)
    → ongoing_test w ≡ false
    → ongoing_test (call_service (priority_del b false) (reply_ordered to w)) ≡ false
unfolding ongoing_test
ordered-idle none b w idle = idle
ordered-idle (some t) b w idle = idle

-- The test that `force_build` orders.
module _ (to : Option String) (b : String) (high : Bool) (l : Launch) where
  order_build-IsCoherent :
      (i : Value) (w : World)
      → ongoing_test w ≡ false
      → IsCoherent (Cli.order_build to b i high l w).1
  unfolding Cli.order_build
  order_build-IsCoherent i w idle =
      start-IsCoherent (some b) i high l (call_service (priority_del b false) (reply_ordered to w))
        (ordered-idle to b w idle)

  order_found-IsCoherent :
      (r : Result Value) (w : World)
      → ongoing_test w ≡ false
      → IsCoherent w
      → IsCoherent (order_found to b high l r w).1
  order_found-IsCoherent (ok i) w idle h = ground (arith, order_build-IsCoherent i w idle)
  order_found-IsCoherent (err e) w idle h = h

  order_from-IsCoherent :
      (src : Source) (w : World)
      → ongoing_test w ≡ false
      → IsCoherent w
      → IsCoherent (Cli.order_from to b src high l w).1
  unfolding Cli.order_from ongoing_test
  order_from-IsCoherent database w idle h =
      order_found-IsCoherent (fetch_build b w.builds).0 _ idle h
  order_from-IsCoherent (file none) w idle h = h
  order_from-IsCoherent (file (some v)) w idle h = order_build-IsCoherent v w idle

  force_build-IsCoherent :
      (src : Source) (w : World) → IsCoherent w → IsCoherent (Cli.force_build to b src high l w).1
  unfolding Cli.force_build
  force_build-IsCoherent src w h = ground (arith, order_from-IsCoherent src w)

answer_cli-IsCoherent :
    (to : Option String) (c : CliCommand) (w : World)
    → IsCoherent w
    → IsCoherent (answer_cli to c w)
unfolding answer_cli
answer_cli-IsCoherent to (CliCommand.force_build b s high l) w h =
    force_build-IsCoherent to b high l s w h
answer_cli-IsCoherent to CliCommand.status w h = unfold Cli.status in h
answer_cli-IsCoherent to CliCommand.pause w h = unfold Config.pause in h
answer_cli-IsCoherent to CliCommand.resume w h = unfold Config.resume in ground arith
answer_cli-IsCoherent to CliCommand.fetch_config w h = unfold Config.fetch_config in h
answer_cli-IsCoherent to CliCommand.fetch_pending w h = unfold Cli.fetch_pending in h
answer_cli-IsCoherent to CliCommand.fetch_builds w h = unfold Cli.fetch_builds in h
answer_cli-IsCoherent to (CliCommand.fetch_baseline newer) w h =
    unfold Releases.fetch_baseline in ground arith
answer_cli-IsCoherent to (CliCommand.update_config cfg p) w h =
    unfold Config.update_config in ground arith
answer_cli-IsCoherent to (CliCommand.activate_baseline n) w h =
    unfold Config.activate_baseline in ground arith
answer_cli-IsCoherent to (CliCommand.add_baseline b) w h = unfold Config.add_baseline in h
answer_cli-IsCoherent to (CliCommand.del_baseline n c f) w h =
    unfold Config.del_baseline Config.drop_active Config.drop_and_reply in ground arith
answer_cli-IsCoherent to (CliCommand.fetch_build_test_info b) w h =
    unfold Cli.fetch_build_test_info in h
answer_cli-IsCoherent to (CliCommand.fetch_build_test_result b) w h =
    unfold Cli.fetch_build_test_result in h
answer_cli-IsCoherent to (CliCommand.clean_build x) w h = unfold Cli.clean_build in h
answer_cli-IsCoherent to (CliCommand.purge_build x) w h = unfold Cli.purge_build in h
answer_cli-IsCoherent to (CliCommand.update_build_test_info b t p) w h =
    unfold Cli.update_build_test_info in ground arith
answer_cli-IsCoherent to (CliCommand.set_build_status b st) w h = unfold Cli.set_build_status in h

-- Every signal keeps the service coherent, whatever HSS_rtc does when a test is started.
dispatch-IsCoherent : (g : Signal) (w : World) → IsCoherent w → IsCoherent (dispatch g w)
unfolding dispatch
dispatch-IsCoherent (check_priority_list l) w h = check-IsCoherent l w h
dispatch-IsCoherent (set_test_to_faulty b) w h = set_test_to_faulty-IsCoherent b w h
dispatch-IsCoherent (test_tool_ready_for_new_build b) w h = ready-IsCoherent b w h
dispatch-IsCoherent (priority_increase b p) w h = priority_increase-IsCoherent b p w h
dispatch-IsCoherent (test_tool_shutdown b r) w h = shutdown-IsCoherent b r w h
dispatch-IsCoherent (cli to c) w h = answer_cli-IsCoherent to c w h

Step-IsCoherent : {w v : World} → Step w v → IsCoherent w → IsCoherent v
Step-IsCoherent {w} (handles g) h = dispatch-IsCoherent g w h
Step-IsCoherent (ends r e) h = λ q. cc
Step-IsCoherent {w} (gives_up r e) h = ground arith

-- In every state that is reached from the start of the service, by any signals and with tests that
-- end at any time, a running test is a test of the service's own build, with its priority.
pub Reach-IsCoherent :
    (f : ConfigFile) (b : Service) {w : World} → Reach (init f b) w → IsCoherent w
unfolding init
Reach-IsCoherent f b here = tt
Reach-IsCoherent f b (next r s) = Step-IsCoherent s (Reach-IsCoherent f b r)
