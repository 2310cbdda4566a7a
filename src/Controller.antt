-- ===== src/Controller.antt =====
-- dbus/rtc_controller/controller/service.py: the state of `Handler`, with the build handler that
-- it calls and what it sends. The methods stand in the modules below.
pub mod Launch
pub mod Signals
pub mod Config
pub mod Cli
pub mod Releases
pub mod Dispatch
mod Tests
use st_tools.Prelude.{
  ℕ, String, Bool, true, false, Option, none, some, List, [], ◌∷◌, ◌++◌, if◌then◌else◌,
}
use st_tools.Prelude.Exec
use st_tools.Prelude.Exec.{Exec, Exn, ok, err, attribute_error, ◌>>=◌, ◌>>◌}
use st_tools.Json.{Value, null, obj, end}
use st_tools.BuildHandler.{Status, Service}
use st_tools.BuildHandler.Builds.{InfoAnswer, StatusAnswer}

-- The commands to HSS_rtc.
pub data Command : Type 0 where
  quit resume discard : Command
  set_high_priority : Bool → Command

-- What `fetch_baseline` tells of a baseline: its build and release, or that there is none.
pub data BaselineData : Type 0 where
  of_build : String → Option String → BaselineData
  not_available : Option Value → BaselineData

-- The answers to rtc_cli: one constructor for each text, with what the text names.
pub data Answer : Type 0 where
  executed ordered not_paused not_configured test_is_ongoing : Answer
  no_base_release_warning baseline_not_allowed no_active_baseline_warning : Answer
  no_pending nothing_to_clean nothing_to_purge no_builds no_baselines : Answer
  active_baseline : String → Answer
  build_missing info_missing no_result : String → Answer
  failed : Exn → Answer
  running_status : Bool → Option (Option String × Bool × Value) → Answer
  value : Value → Answer
  results : List Value → Answer
  pending : List (String × Bool) → Answer
  swept : ℕ → Answer
  statuses : List (String × Status) → Answer
  baselines : List (String × Bool × BaselineData) → Answer
  forced : StatusAnswer → Answer
  info : InfoAnswer → Answer

-- What leaves the service: D-Bus signals, and the commands that `RTC_Handler` sends by UDP.
pub data Event : Type 0 where
  check_priority_list : Event
  answer : Option String → Answer → Event
  command : Command → Event

-- What stands at `CFG_FILE`.
pub data ConfigFile : Type 0 where
  missing garbled : ConfigFile
  stored : Value → ConfigFile

-- An `RTC_Handler` as the service sees it: whether HSS_rtc runs, whether there still is a node to
-- send commands for, and the priority of its own copy of the test's configuration.
pub record RtcHandler : Type 0 where
  pub build : Option String
  pub high_priority : Bool
  pub ongoing_test : Bool
  pub connected : Bool

pub record World : Type 0 where
  pub rtc_handler : Option RtcHandler
  pub service_paused : Bool
  pub current_test_can_be_stopped : Bool
  pub service_config : Value
  pub config_file : ConfigFile
  pub build : Option String
  pub build_info : Value
  pub high_priority : Bool
  pub builds : Service
  pub sent : List Event

-- `Handler.__init__`, with the file's configuration if it can be read.
unfoldable pub init : ConfigFile → Service → World
init f b = record {
  rtc_handler = none;
  service_paused = true;
  current_test_can_be_stopped = false;
  service_config = elim f [ stored v ↦ v | _ ↦ obj end ];
  config_file = f;
  build = none;
  build_info = null;
  high_priority = false;
  builds = b;
  sent = [];
}

abbrev pub emit : Event → World → World
emit e w = record w { sent = w.sent ++ e ∷ [] }

-- A call of the build handler through its client.
abbrev pub call {ℓ} : {A : Type ℓ} → Exec Service A → Exec World A
call m w = let (r, b) = m w.builds in (r, record w { builds = b })

abbrev pub call_service : (Service → Service) → World → World
call_service f w = record w { builds = f w.builds }

unfoldable pub ongoing_test : World → Bool
ongoing_test w = elim w.rtc_handler [ none ↦ false | some r ↦ r.ongoing_test ]

-- `RTC_Handler.send_rtc_command`
unfoldable pub send : RtcHandler → Command → World → World
send r c w = if r.connected then emit (command c) w else w

-- A method of `self.__rtc_handler`, which may be `None`.
abbrev pub with_handler : (RtcHandler → World → World) → Exec World (Unit {0})
with_handler f w = elim w.rtc_handler [ none ↦ (err attribute_error, w) | some r ↦ (ok tt, f r w) ]

-- Also the part of `test_tool_shutdown` from the reset on.
unfoldable pub clean : World → World
clean w = record w {
  rtc_handler = none;
  current_test_can_be_stopped = false;
  build = none;
  build_info = null;
  high_priority = false;
}

-- `stop_test`
unfoldable pub stop_test : Exec World (Unit {0})
unfolding clean send
stop_test = do with_handler (λ r. send r quit); Exec.modify clean

-- `stop`: a running test is told to quit.
unfoldable pub stop : World → World
unfolding send
stop w = elim w.rtc_handler [ none ↦ w | some r ↦ if r.ongoing_test then send r quit w else w ]
