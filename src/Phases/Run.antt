-- ===== src/Phases/Run.antt =====
-- HSS_rtc_lib/components: `Step.run` of steps.py and `Phase.run` of phases.py; HSS_rtc/HSS_rtc: the
-- loop over the phases in `RTC_controller.run`. Of the phases with a `run` of their own it is what
-- they report.
use st_tools.Prelude.{
  ℕ, String, Bool, true, false, not, ◌||◌, Option, none, some, List, [], ◌∷◌, ◌++◌, ltb, ◌==◌,
  last?, if◌then◌else◌, map_option,
}
use st_tools.Prelude.Int.{ℤ, pos, negsuc}
use st_tools.Prelude.Dict.{Dict, lookup}
use st_tools.Prelude.Text.{join}
use st_tools.Suite.{Moment, running, update_status, is_zero}
use st_tools.Suite.Execution.{
  Rtc, Order, obey_all, report_failures, change_case, blame, Ending, completed, ordered,
  interrupted, execution_error, bat_error, exits, stops_on_fail, any_exception, Round, conclude,
  finish_case, end_case, exit_after,
}
use st_tools.Phases.{
  Raised, Enable, flag, named, Config, Answer, RtcData, Setup, Outcome, step_type, translated,
  no_cmd, full_cmd, end_step,
}
use st_tools.Phases.Words.{has_text, get_error_info}

-- An exception ends what follows.
abbrev pub and_then : Outcome → (RtcData → Outcome) → Outcome
and_then (some e, d) f = (some e, d)
and_then (none, d) f = f d

-- A command is started, and this happens in the meantime.
unfoldable pub start : String → Answer → RtcData → Outcome
unfolding obey_all
start text a d = (
  map_option Raised.interrupted a.interrupt,
  record d { commands = d.commands ++ text ∷ []; rtc = obey_all a.during d.rtc },
)

unfoldable pub not_running : String → String
unfolding join
not_running cmd = join "" ("Execution Configuration Error: Failed to run \"" ∷ cmd ∷ "\"" ∷ [])

unfoldable pub unsaved : String → Raised
unfolding join
unsaved e = Raised.execution_error (join "" ("Execution Run Error: Error saving file: " ∷ e ∷ []))

unfoldable pub unknown_step : String → Raised
unfolding join
unknown_step id =
    Raised.execution_error (join "" ("Execution Configuration Error: Unknown step: " ∷ id ∷ []))

unfoldable pub shell_text : Bool → String → String
unfolding join
shell_text framework cmd = if framework then join "" ("run_command_node " ∷ cmd ∷ []) else cmd

-- Why a command in the background has failed.
abbrev pub launch_error : Answer → String → Option String
launch_error a cmd = elim a.refused [
  | none ↦ if a.is_running then none else some (not_running cmd)
  | some e ↦ some e
]

abbrev pub end_launch : Option String → Config → String → String → RtcData → Outcome
end_launch none c phase cmd d =
    end_step false c phase cmd ""
      (record d { background_commands = d.background_commands ++ cmd ∷ [] })
end_launch (some e) c phase cmd d = end_step true c phase cmd e d

unfoldable pub run_background : Config → Answer → String → String → RtcData → Outcome
unfolding start end_step not_running
run_background c a phase cmd d =
    and_then (start cmd a d) (λ d1. end_launch (launch_error a cmd) c phase cmd d1)

abbrev pub exceeds_one : ℤ → Bool
exceeds_one (pos n) = ltb 1 n
exceeds_one (negsuc n) = false

abbrev pub timeout_in : Option String → Option String
timeout_in none = none
timeout_in (some line) = if has_text "Command Timeout" line then some line else none

abbrev pub or_read : Option String → List String → String
or_read none stderr = get_error_info stderr
or_read (some line) stderr = line

-- The last line says it if the time is up; else what the framework wrote.
unfoldable pub error_info : Config → Answer → String
unfolding get_error_info
error_info c a =
    or_read (if exceeds_one c.max_time then timeout_in (last? a.stderr) else none) a.stderr

abbrev pub first_error : Option String → Option String → Option String
first_error none e = e
first_error (some e) e' = some e

-- Why what the command wrote is not in its files.
unfoldable pub save_error : Setup → Answer → Option String
save_error u a =
    first_error (if ltb 1 a.stdout_size then a.info_unsaved else none)
      (if not (is_zero a.returncode) || u.verbose then a.log_unsaved else none)

abbrev pub end_foreground : Option String → Config → Answer → String → String → RtcData → Outcome
end_foreground none c a phase cmd d =
    end_step (not (is_zero a.returncode)) c phase cmd (error_info c a) d
end_foreground (some e) c a phase cmd d = (some (unsaved e), d)

unfoldable pub run_foreground : Setup → Config → Answer → Bool → String → String → RtcData → Outcome
unfolding start end_step error_info save_error shell_text unsaved
run_foreground u c a framework phase cmd d =
    and_then (start (shell_text framework cmd) a d)
      (λ d1. end_foreground (save_error u a) c a phase cmd d1)

abbrev pub run_command : Setup → Config → Answer → Bool → String → String → RtcData → Outcome
run_command u c a framework phase cmd d =
    if c.background
    then run_background c a phase cmd d
    else run_foreground u c a framework phase cmd d

abbrev pub or_no_cmd : String → Option String → (String → RtcData → Outcome) → RtcData → Outcome
or_no_cmd id none f d = (some (no_cmd id), d)
or_no_cmd id (some text) f d = f text d

-- `Step.run`; the text of a step of type `function` is not used by the phases here.
unfoldable pub run_typed : Setup → String → Config → Answer → String → String → RtcData → Outcome
unfolding translated full_cmd run_background run_foreground no_cmd unknown_step
run_typed u phase c a id type_name d =
    if type_name == "framework" || type_name == "external"
    then or_no_cmd id (translated u c id)
        (λ text d'. run_command u c a (type_name == "framework") phase (full_cmd c d' text) d') d
    else if type_name == "function"
    then or_no_cmd id (translated u c id) (λ text d'. (none, d')) d
    else (some (unknown_step id), d)

-- `Step(...)` and its `run`: a step without a name is a `KeyError`.
abbrev pub run_named : Setup → String → Config → Answer → Option String → RtcData → Outcome
run_named u phase c a none d = (some Raised.key_error, d)
run_named u phase c a (some id) d = run_typed u phase c a id (step_type u c id) d

abbrev pub is_true : Option (Option String) → Bool
is_true (some (some text)) = text == "true"
is_true v = false

-- Without `enable` it is not executed.
unfoldable pub is_enabled : Option Enable → RtcData → Bool
unfolding lookup
is_enabled none d = false
is_enabled (some (flag b)) d = b
is_enabled (some (named key)) d = is_true (lookup key d.macros)

unfoldable pub run_step : Setup → String → Config → Answer → RtcData → Outcome
unfolding run_typed step_type is_enabled
run_step u phase c a d = if is_enabled c.enable d then run_named u phase c a c.id d else (none, d)

-- The steps of `Phase.run`, each with what happens while it runs.
unfoldable pub run_steps : Setup → String → List (Config × Answer) → RtcData → Outcome
unfolding run_step
run_steps u phase [] d = (none, d)
run_steps u phase ((c, a) ∷ l) d =
    let rest = and_then (run_step u phase c a d) (λ d'. run_steps u phase l d') in
    if d.rtc.exit_test_case then (none, d) else rest

-- What a phase with a `run` of its own reports, and how it ends.
pub record Report : Type 0 where
  pub verdicts : List (String × Bool)
  pub is_faulty : Bool
  pub during : List Order
  pub raised : Option Raised

-- A phase that is not in the file or has no `enable`; one with its name, whether it is enabled, and
-- its steps, if it has this field; and one with a `run` of its own.
pub data Phase : Type 0 where
  missing : Phase
  plain : String → Bool → Option (List (Config × Answer)) → Phase
  other : Bool → Report → Phase

unfoldable pub report : Report → RtcData → Outcome
unfolding report_failures obey_all
report r d = (
  r.raised,
  record d {
    rtc =
        obey_all r.during
          (blame r.is_faulty (change_case d.index (report_failures r.verdicts) d.rtc));
  },
)

abbrev pub run_plain : Setup → String → Option (List (Config × Answer)) → RtcData → Outcome
run_plain u name none d = (some Raised.key_error, d)
run_plain u name (some l) d = run_steps u name l d

unfoldable pub run_phase : Setup → Phase → RtcData → Outcome
unfolding report run_steps
run_phase u missing d = (some Raised.key_error, d)
run_phase u (plain name enable steps) d = if enable then run_plain u name steps d else (none, d)
run_phase u (other enable r) d = if enable then report r d else (none, d)

-- A `KeyError` and an order to skip the phase go on with the next one.
abbrev pub after_phase : Outcome → (RtcData → Ending × RtcData) → Ending × RtcData
after_phase (none, d) f = f d
after_phase (some Raised.key_error, d) f = f d
after_phase (some Raised.skips, d) f = f d
after_phase (some Raised.exits, d) f = (exits, d)
after_phase (some Raised.stops_on_fail, d) f = (stops_on_fail, d)
after_phase (some Raised.any_exception, d) f = (any_exception, d)
after_phase (some (Raised.execution_error e), d) f = (execution_error e, d)
after_phase (some (Raised.bat_error e), d) f = (bat_error e, d)
after_phase (some (Raised.interrupted again), d) f = (interrupted again, d)

-- The loop over the phases.
unfoldable pub run_phases : Setup → List Phase → RtcData → Ending × RtcData
unfolding run_phase
run_phases u [] d = (completed, d)
run_phases u (p ∷ l) d =
    let rest = after_phase (run_phase u p d) (λ d'. run_phases u l d') in
    if d.rtc.exit_test_case then (ordered, d) else rest

-- The test case at `n` with its macros, before its phases.
abbrev pub begin : ℕ → Dict (Option String) → Rtc → RtcData
begin n macros s = record {
  rtc = s;
  index = n;
  macros = macros;
  faulty_steps = [];
  background_commands = [];
  commands = [];
}

-- The round that has seen this.
abbrev pub round_of : Moment → Moment → List (String × Bool) → Bool → List Order → Ending → Round
round_of begins stops verdicts faulty during ending = record {
  before = [];
  refused = none;
  verdicts = verdicts;
  is_faulty = faulty;
  during = during;
  ending = ending;
  begins = begins;
  stops = stops;
}

abbrev pub end_phases : ℕ → Moment → Moment → Ending × RtcData → Rtc
end_phases n begins stops (ending, d) =
    change_case n (finish_case stops) (conclude n (round_of begins stops [] false [] ending) d.rtc)

-- The test case at `n`, from `initialize` to `finish`.
unfoldable pub execute_phases :
    Setup → Dict (Option String) → List Phase → ℕ → Moment → Moment → Rtc → Rtc
unfolding run_phases update_status finish_case end_case exit_after
execute_phases u macros phases n begins stops s =
    let s0 = record s { exit_rtc = false; exit_test_case = false } in
    let s1 = change_case n (update_status running begins "" false) s0 in
    end_phases n begins stops (run_phases u phases (begin n macros s1))
