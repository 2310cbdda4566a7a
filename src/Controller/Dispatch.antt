-- ===== src/Controller/Dispatch.antt =====
-- The signals that `Handler.__init__` installs handlers for, as hss_utils/src/dbus/signals.py hands
-- them over: what a handler raises is logged and dropped.
pub mod Coherence
pub mod OneTest
pub mod Progress
pub mod Refusals
pub mod Shutdown
pub mod Answers
use st_tools.Prelude.{◌≡◌, String, Bool, false, Option, none, some, List, [], ◌∷◌}
use st_tools.Prelude.Exec.{Exec}
use st_tools.Json.{Value}
use st_tools.BuildHandler.{Status}
use st_tools.Controller.{RtcHandler, World}
use st_tools.Controller.Launch.{Launch}
use st_tools.Controller.Signals
use st_tools.Controller.Config
use st_tools.Controller.Cli
use st_tools.Controller.Releases
use st_tools.Controller.Cli.{Source}

-- The commands of rtc_cli.
pub data CliCommand : Type 0 where
  status pause resume fetch_config fetch_pending fetch_builds : CliCommand
  fetch_baseline : (String → Bool) → CliCommand
  update_config : Value → Bool → CliCommand
  activate_baseline add_baseline : String → CliCommand
  del_baseline : String → Bool → Bool → CliCommand
  fetch_build_test_info fetch_build_test_result clean_build purge_build : String → CliCommand
  update_build_test_info : String → Value → Bool → CliCommand
  set_build_status : String → Status → CliCommand
  force_build : String → Source → Bool → Launch → CliCommand

pub data Signal : Type 0 where
  check_priority_list : Launch → Signal
  set_test_to_faulty test_tool_ready_for_new_build : String → Signal
  priority_increase : String → Bool → Signal
  test_tool_shutdown : String → Value → Signal
  cli : Option String → CliCommand → Signal

pub answer_cli : Option String → CliCommand → World → World
answer_cli to status w = Cli.status to w
answer_cli to pause w = Config.pause to w
answer_cli to resume w = Config.resume to w
answer_cli to fetch_config w = Config.fetch_config to w
answer_cli to fetch_pending w = Cli.fetch_pending to w
answer_cli to fetch_builds w = Cli.fetch_builds to w
answer_cli to (fetch_baseline newer) w = (Releases.fetch_baseline to newer w).1
answer_cli to (update_config cfg p) w = (Config.update_config to cfg p w).1
answer_cli to (activate_baseline n) w = Config.activate_baseline to n w
answer_cli to (add_baseline b) w = Config.add_baseline to b w
answer_cli to (del_baseline n c f) w = (Config.del_baseline to n c f w).1
answer_cli to (fetch_build_test_info b) w = Cli.fetch_build_test_info to b w
answer_cli to (fetch_build_test_result b) w = Cli.fetch_build_test_result to b w
answer_cli to (clean_build x) w = Cli.clean_build to x w
answer_cli to (purge_build x) w = Cli.purge_build to x w
answer_cli to (update_build_test_info b t p) w = Cli.update_build_test_info to b t p w
answer_cli to (set_build_status b st) w = Cli.set_build_status to b st w
answer_cli to (force_build b s h l) w = (Cli.force_build to b s h l w).1

-- `Watcher._dispatcher_`
pub dispatch : Signal → World → World
unfolding answer_cli
dispatch (check_priority_list l) w = (Signals.check_priority_list l w).1
dispatch (set_test_to_faulty b) w = Signals.set_test_to_faulty b w
dispatch (test_tool_ready_for_new_build b) w = (Signals.test_tool_ready_for_new_build b w).1
dispatch (priority_increase b p) w = Signals.priority_increase b p w
dispatch (test_tool_shutdown b r) w = Signals.test_tool_shutdown b r w
dispatch (cli to c) w = answer_cli to c w

-- HSS_rtc ends by itself: `run_traffic` sees it, and later gives up the node.
abbrev ended : RtcHandler → RtcHandler
ended r = record r { ongoing_test = false }

abbrev released : RtcHandler → RtcHandler
released r = record r { connected = false }

-- What can happen to the service: a signal, or the end of a test.
pub data Step (w : World) : World → Type 0 where
  handles : (g : Signal) → Step w (dispatch g w)
  ends :
      (r : RtcHandler) → w.rtc_handler ≡ some r → Step w (record w { rtc_handler = some (ended r) })
  gives_up :
      (r : RtcHandler)
      → w.rtc_handler ≡ some r
      → Step w (record w { rtc_handler = some (released r) })

pub data Reach (w : World) : World → Type 0 where
  here : Reach w w
  next : {u v : World} → Reach w u → Step u v → Reach w v
