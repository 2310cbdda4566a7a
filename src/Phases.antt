-- ===== src/Phases.antt =====
-- HSS_rtc_lib/components/steps.py: a step of a phase (`StepTranslator` and `Step`), and what it reports
-- to `RTC_Data` of HSS_rtc/HSS_rtc. The table of `StepTranslator`, its names with their types and
-- commands for a type of node, is an argument.
mod Words
pub mod Run
mod Verdict
pub mod Blames
mod Tests
use st_tools.Prelude.{ℕ, String, Bool, ◌||◌, Option, none, some, List, [], ◌∷◌, ◌++◌, if◌then◌else◌}
use st_tools.Prelude.Int.{ℤ}
use st_tools.Prelude.Dict.{Dict, lookup}
use st_tools.Prelude.Text.{join}
use st_tools.Suite.{set_execution_status}
use st_tools.Suite.Execution.{Rtc, Order, report_failures, change_case, blame}
use st_tools.Phases.Words.{has_text, macro_translator}

-- The exceptions that end a step or a phase; an interrupt by the user may be followed by another one.
pub data Raised : Type 0 where
  key_error exits stops_on_fail skips any_exception : Raised
  execution_error bat_error : String → Raised
  interrupted : Bool → Raised

-- A field `enable` is a Boolean or names a macro.
pub data Enable : Type 0 where
  flag : Bool → Enable
  named : String → Enable

-- What the file of the test case says of a step.
pub record Config : Type 0 where
  pub id : Option String
  pub enable : Option Enable
  pub cmd : Option String
  pub framework : Bool
  pub extra_parameters : String
  pub max_time : ℤ
  pub background : Bool
  pub add_to_verdict : Bool
  pub repeat : Bool
  pub report_not_valid : Bool
  pub exit_rtc_on_fail : Bool
  pub stop_on_fail : Bool
  pub skip_phase_on_fail : Bool

-- What happens while a step runs: how its command ends, or why it could not be started in the
-- background; what it wrote; why a file could not be written; the orders that come, and whether the
-- user interrupts.
pub record Answer : Type 0 where
  pub refused : Option String
  pub is_running : Bool
  pub returncode : ℤ
  pub stdout_size : ℕ
  pub stderr : List String
  pub info_unsaved : Option String
  pub log_unsaved : Option String
  pub during : List Order
  pub interrupt : Option Bool

-- `RTC_Data`, with the place of its test case in the suite, and the commands that were started.
pub record RtcData : Type 0 where
  pub rtc : Rtc
  pub index : ℕ
  pub macros : Dict (Option String)
  pub faulty_steps : List (String × (String × String))
  pub background_commands : List String
  pub commands : List String

-- The table of `StepTranslator`, and `verbose` of the command line.
pub record Setup : Type 0 where
  pub step_data : Dict (String × String)
  pub verbose : Bool

abbrev pub Outcome : Type 0
Outcome = Option Raised × RtcData

abbrev pub type_in : Bool → Option (String × String) → String
type_in framework none = if framework then "framework" else "external"
type_in framework (some (type_name, text)) = type_name

-- `StepTranslator.step_type`
unfoldable pub step_type : Setup → Config → String → String
unfolding lookup
step_type u c id = type_in c.framework (lookup id u.step_data)

abbrev pub cmd_in : Option String → Option (String × String) → Option String
cmd_in cmd none = cmd
cmd_in cmd (some (type_name, text)) = some text

-- `StepTranslator.cmd`; without one it raises.
unfoldable pub translated : Setup → Config → String → Option String
unfolding lookup
translated u c id = cmd_in c.cmd (lookup id u.step_data)

unfoldable pub no_cmd : String → Raised
unfolding join
no_cmd id =
    execution_error
      (join "" ("Execution Configuration Error: Problem finding " ∷ id ∷ " cmd : 'cmd'" ∷ []))

abbrev pub with_macros : RtcData → String → String
with_macros d text = if has_text "#" text then macro_translator d.macros text else text

-- `Step.cmd`, from what the translator gives.
unfoldable pub full_cmd : Config → RtcData → String → String
unfolding macro_translator join
full_cmd c d text = with_macros d (join " " (text ∷ c.extra_parameters ∷ []))

-- `update_verdict(False, ...)` of the test case.
unfoldable pub update_verdict : String → Bool → RtcData → RtcData
unfolding report_failures
update_verdict message again d = record d {
  rtc = change_case d.index (report_failures ((message, again) ∷ [])) d.rtc;
}

abbrev pub touches_verdict : Config → Bool
touches_verdict c = c.add_to_verdict || c.stop_on_fail || c.exit_rtc_on_fail || c.report_not_valid

-- What a failed step writes.
unfoldable pub accuse : Config → String → String → String → RtcData → RtcData
unfolding update_verdict set_execution_status join
accuse c phase cmd info d =
    let message = join "" (phase ∷ " " ∷ cmd ∷ ": " ∷ info ∷ []) in
    let d1 = if touches_verdict c then update_verdict message c.repeat d else d in
    let d2 = record d1 { rtc = blame c.report_not_valid d1.rtc } in
    record d2 { faulty_steps = d2.faulty_steps ++ (phase, (cmd, info)) ∷ [] }

-- And what it raises.
unfoldable pub refusal : Config → Option Raised
refusal c =
    if c.exit_rtc_on_fail
    then some exits
    else if c.stop_on_fail
    then some stops_on_fail
    else if c.skip_phase_on_fail
    then some skips
    else none

unfoldable pub end_step : Bool → Config → String → String → String → RtcData → Outcome
unfolding accuse refusal
end_step failed c phase cmd info d =
    if failed then (refusal c, accuse c phase cmd info d) else (none, d)
