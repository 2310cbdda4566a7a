-- ===== src/ActionHandler/Tests.antt =====
-- `ActionHandler`: runs on small inputs.
use st_tools.Prelude.{◌≡◌, refl, ◌⊎◌, ℕ, Bool, true, false, none, some, List, [], ◌∷◌}
use st_tools.Prelude.Int.{ℤ, pos, negsuc}
use st_tools.Prelude.Int
use st_tools.Prelude.Exec.{ok, err, configuration_error}
use st_tools.LoadMonitor.{new_monitor}
use st_tools.ErrorMonitor
use st_tools.ErrorMonitor.{Rate}
use st_tools.ActionHandler.{Action, Handler, Tick}
use st_tools.ActionHandler.Config.{Entry, macro_name, number, configure}
use st_tools.ActionHandler.Orders.{cancel_action}
use st_tools.ActionHandler.Run.{
  Seen, with_code, Event, command_ended, new_line, timed_out, ended, returned, Script, run_cmd,
  run_action, run_all, run,
}
use st_tools.ActionHandler.Verdict.{IsSuccess, run_cmd-verdict}
use st_tools.ActionHandler.Release.{Releases, run-Releases, run_all-returned}

abbrev short : Action
short = record {
  id = "backup";
  trigger_load = negsuc 0;
  trigger_time = pos 0;
  max_trigger_time = negsuc 0;
  max_action_time = pos 60;
  time_running_traffic_after_execution = negsuc 0;
  stop_on_fail = false;
  report_not_valid = true;
  add_to_verdict = true;
  disable_load_monitor = false;
  stop_error_scenario_register = false;
  allow_info_to_summary = true;
}

abbrev idle : Handler
idle = record {
  running = true;
  ready = true;
  has_node = true;
  executing_cmd = false;
  error_code = pos 0;
  force_exit = false;
  replies = [];
  executor = record {
    execution_with_traffic = false;
    wait_for_action_handler = true;
    stop_phase_pending = false;
    verdict = true;
    suite_failed = false;
    action_results = [];
    action_infos = [];
    load_monitor = new_monitor [];
    load_ready = false;
    error_monitor = ErrorMonitor.new_monitor none 1 1 [];
    has_error_monitor = true;
  };
}

abbrev under : Rate → ℕ → Bool
under r n = true

abbrev busy : Handler
busy = record idle { executing_cmd = true }

abbrev event : Seen → Event
event s = record { seen = s; force_exit = false; is_shut_down = false }

abbrev good_end : List Event
good_end = event new_line ∷ event (timed_out 2 none) ∷ event (command_ended (with_code 0)) ∷ []

run_cmd-verdict_example :
    ((run_cmd under short (pos 60) good_end busy).1.executor.verdict ≡ false)
    ⊎ IsSuccess short good_end (run_cmd under short (pos 60) good_end busy).1
unfolding run_cmd Int.◌-ℤ◌
run_cmd-verdict_example =
    run_cmd-verdict under short (pos 60) good_end busy
      (run_cmd under short (pos 60) good_end busy).1 refl refl refl

-- An order to cancel ends the command, and the verdict is bad.
cancelled :
    (run_cmd under short
      (pos 60)
      (event (timed_out 2 (some cancel_action)) ∷ event new_line ∷ [])
      busy).1.executor.verdict
    ≡ false
unfolding run_cmd Int.◌-ℤ◌
cancelled = refl

abbrev waited : List Tick
waited =
    record { elapsed = 1; load_monitor = new_monitor []; force_exit = false; is_shut_down = false }
    ∷ []

abbrev late : Script
late = record {
  action = short;
  ticks = waited;
  events = event (timed_out 61 none) ∷ [];
  is_forced_after = false;
}

abbrev in_time : Script
in_time = record { action = short; ticks = waited; events = good_end; is_forced_after = false }

run-Releases_example : Releases true (run under in_time (in_time ∷ []) idle)
run-Releases_example = run-Releases under in_time (in_time ∷ []) idle

-- Two actions that succeed.
released : (run under in_time (in_time ∷ []) idle).1.executor.wait_for_action_handler ≡ false
unfolding run Int.◌-ℤ◌
released = refl

-- An action that takes too long, with another one to come.
late_is_shut_down : (run_action under late idle).2.running ≡ false
unfolding run_action Int.◌-ℤ◌
late_is_shut_down = refl

late_is_over : run_action under late idle ≡ (ended, false, (run_action under late idle).2)
unfolding run_action Int.◌-ℤ◌
late_is_over = refl

run_all-returned_example :
    (run_all under late (in_time ∷ []) idle ≡ (returned, (run_action under late idle).2))
    × ((run_action under late idle).2.executor.wait_for_action_handler ≡ true)
run_all-returned_example =
    run_all-returned under late in_time [] idle (run_action under late idle).2 refl late_is_over
      late_is_shut_down

abbrev entry : Entry
entry = record {
  enable = some (macro_name "#BACKUP#");
  has_cmd = true;
  has_id = true;
  load = some (number (pos 80));
  has_time = true;
  rest = short;
}

-- A load as a trigger wants traffic.
load_without_traffic :
    configure (λ m. some "true") (λ r. pos 0) false true true (entry ∷ []) ≡ err configuration_error
unfolding configure
load_without_traffic = refl

load_with_traffic :
    configure (λ m. some "true") (λ r. pos 0) true true true (entry ∷ [])
    ≡ ok (record short { trigger_load = pos 80 } ∷ [])
unfolding configure
load_with_traffic = refl
