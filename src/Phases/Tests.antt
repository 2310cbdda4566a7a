-- ===== src/Phases/Tests.antt =====
-- Phases on small inputs.
use st_tools.Prelude.{ℕ, ◌≡◌, refl, String, Bool, true, false, Option, none, some, List, [], ◌∷◌}
use st_tools.Prelude.Dict.{Dict}
use st_tools.Prelude.Int.{pos, negsuc}
use st_tools.Suite.{not_finished, TestCase, Moment, read_case}
use st_tools.Suite.Execution.{Rtc, Ending, case_at, continue_quit}
use st_tools.Phases.{Enable, flag, named, Config, Answer, RtcData, Setup}
use st_tools.Phases.Words.{macro_translator, get_error_info}
use st_tools.Phases.Run.{Phase, missing, plain, other, run_steps, run_phases, begin, execute_phases}
use st_tools.Phases.Blames.{SaysWhy, run_steps-SaysWhy}

abbrev rtc : Rtc
rtc = record {
  suite = record { name = "night"; cases = read_case "load" true (pos 1) ∷ []; next = 1 };
  exit_rtc = false;
  exit_test_case = false;
  paused = false;
  dbus = false;
  emitted = 0;
}

abbrev moment : ℕ → Moment
moment n = record { now = n; date = "20260101" }

abbrev setup : Setup
setup = record {
  step_data = ("health_check", ("framework", "CBA_health_check --node #NODE#")) ∷ [];
  verbose = false;
}

abbrev macros : Dict (Option String)
macros = ("#NODE#", some "10.0.0.1") ∷ ("#FULL#", some "true") ∷ []

abbrev step : String → Bool → Enable → Config
step name stop enable = record {
  id = some name;
  enable = some enable;
  cmd = some "ls";
  framework = false;
  extra_parameters = "-v";
  max_time = negsuc 0;
  background = false;
  add_to_verdict = false;
  repeat = false;
  report_not_valid = false;
  exit_rtc_on_fail = false;
  stop_on_fail = stop;
  skip_phase_on_fail = false;
}

abbrev answer : ℕ → Answer
answer code = record {
  refused = none;
  is_running = false;
  returncode = pos code;
  stdout_size = 0;
  stderr = "Traceback" ∷ "stFramework_message node is down" ∷ "bye" ∷ [];
  info_unsaved = none;
  log_unsaved = none;
  during = [];
  interrupt = none;
}

-- The second step fails, and the third one is not reached.
abbrev steps : List (Config × Answer)
steps =
    (step "list" true (flag true), answer 0)
    ∷ (step "health_check" true (named "#FULL#"), answer 2)
    ∷ (step "list" true (flag true), answer 0)
    ∷ []

replaced : macro_translator macros "ping #NODE# #NODE#" ≡ "ping 10.0.0.1 10.0.0.1"
unfolding macro_translator
replaced = refl

read : get_error_info (answer 2).stderr ≡ "node is down"
unfolding get_error_info
read = refl

abbrev at_begin : RtcData
at_begin = begin 0 macros rtc

stopped :
    (run_steps setup "PRE" steps at_begin).1.commands
    ≡ "ls -v" ∷ "run_command_node CBA_health_check --node 10.0.0.1 -v" ∷ []
unfolding run_steps
stopped = refl

abbrev failed : TestCase
failed = record (read_case "load" true (pos 1)) {
  failure_messages = "PRE CBA_health_check --node 10.0.0.1 -v: node is down" ∷ [];
}

run_steps-SaysWhy_example : SaysWhy "PRE" (run_steps setup "PRE" steps at_begin).1 failed
unfolding run_steps
run_steps-SaysWhy_example = run_steps-SaysWhy setup "PRE" steps at_begin failed tt refl

-- A phase that is not there, one in which an order to exit comes, and one that is not reached.
abbrev phases : List Phase
phases =
    missing
    ∷ other true (record {
      verdicts = ("EXECUTION too many errors", true) ∷ [];
      is_faulty = true;
      during = continue_quit ∷ [];
      raised = none;
    })
    ∷ plain "POST" true (some steps)
    ∷ []

-- The order comes while the test case has a failure, and what is left is not started.
ordered_to_exit : (run_phases setup phases at_begin).0 ≡ Ending.ordered
unfolding run_phases
ordered_to_exit = refl

case_ordered_to_exit :
    case_at 0 (execute_phases setup macros phases 0 (moment 1) (moment 2) rtc)
    ≡ some (record failed {
      name = "load_20260101";
      status = not_finished;
      failure_messages =
          "EXECUTION too many errors" ∷ "Test case exit order has been received" ∷ [];
      start_time = some 1;
      stop_time = some 2;
      repeat = true;
      report_not_valid = true;
    })
unfolding execute_phases
case_ordered_to_exit = refl
