-- ===== src/Controller/Launch.antt =====
-- `start_hss_rtc_execution`: a build is chosen, and a test of it is started.
pub mod Outcome
use st_tools.Prelude.{
  String, Bool, true, false, not, ◌&&◌, Option, none, some, List, [], ◌∷◌, is_some, if◌then◌else◌,
}
use st_tools.Prelude.Exec
use st_tools.Prelude.Exec.{Exec, Result, ok, err, Exn, key_error, pure, gets, ◌>>=◌, ◌>>◌}
use st_tools.Json.{Value, null, truthy, get_item}
use st_tools.BuildHandler.{Status, test_faulty, test_ongoing}
use st_tools.BuildHandler.Queue.{get_build}
use st_tools.BuildHandler.Builds.{fetch_build, update_build_status}
use st_tools.Controller.{RtcHandler, World, call, call_service, clean}

-- How far HSS_rtc comes, which the test node decides: `RTC_Handler` cannot be created, its
-- `prepare_test_scenario` fails, its thread reports an error, or it reports the start.
pub data Launch : Type 0 where
  not_created not_prepared not_started started : Launch

abbrev pub is_null : Value → Bool
is_null null = true
is_null v = false

-- `self.__service_config['service_parameters']['base_release']`, with `None` on `KeyError`.
abbrev pub or_none : Result Value → Result (Option Value)
or_none (ok v) = ok (some v)
or_none (err key_error) = ok none
or_none (err e) = err e

abbrev pub then_get : Result Value → String → Result Value
then_get (ok v) k = get_item v k
then_get (err e) k = err e

unfoldable pub base_release : Value → Result Value
base_release config = then_get (get_item config "service_parameters") "base_release"

unfoldable pub baseline : Value → Result (Option Value)
unfolding base_release
baseline config = or_none (base_release config)

abbrev pub returns {ℓ} : {A : Type ℓ} → Result A → Bool
returns (ok a) = true
returns (err e) = false

abbrev pub set_test : Option String → Value → Bool → World → World
set_test build build_info high w = record w {
  build = build;
  build_info = build_info;
  high_priority = high;
}

-- The first branch: the answer of `get_build` is stored, and may be of no use.
abbrev pub take_build : Result (Option String × Value × Bool) → Exec World Bool
take_build (ok (b, i, h)) w = (ok (is_some b && not (is_null i)), set_test b i h w)
take_build (err e) w = (ok false, w)

-- The second: the information is stored before it is tested, the build after.
abbrev pub take_info : String → Bool → Result Value → Exec World Bool
take_info build high (ok i) w =
    if is_null i
    then (ok false, record w { build_info = i })
    else (ok true, set_test (some build) i high w)
take_info build high (err e) w = (ok false, w)

abbrev pub attempt {ℓ} : {A : Type ℓ} → Exec World A → Exec World (Result A)
attempt m w = let (r, w') = m w in (ok r, w')

-- Whether there is a build to test, which is then the service's build.
unfoldable pub select : Option String → Value → Bool → Exec World Bool
select none build_info high = do r ← attempt (call get_build); take_build r
select (some b) null high = do r ← attempt (call (fetch_build b)); take_info b high r
select (some b) build_info high = do Exec.modify (set_test (some b) build_info high); pure true

-- The status of the build under test, which a paused service leaves alone.
unfoldable pub report : Status → World → World
report st w =
    if w.service_paused
    then w
    else elim w.build [ none ↦ w | some b ↦ call_service (update_build_status b st) w ]

unfoldable pub fail : World → World
unfolding report clean
fail w = clean (report test_faulty w)

-- `RTC_Handler.__init__` raises without a configuration.
unfoldable pub can_create : Launch → Value → Bool
unfolding baseline
can_create not_created config = false
can_create l config = truthy config && returns (baseline config)

unfoldable pub created : World → RtcHandler
created w = record {
  build = w.build;
  high_priority = w.high_priority;
  ongoing_test = false;
  connected = true;
}

-- From the creation of the handler to the start of its thread, and the wait for the start event.
unfoldable pub launch : Launch → World → World
unfolding can_create created
launch l w =
    if can_create l w.service_config
    then (elim l [
      | started ↦ report test_ongoing (record w {
        rtc_handler = some (record (created w) { ongoing_test = true });
        current_test_can_be_stopped = false;
      })
      | _ ↦ fail w
    ])
    else fail w

abbrev pub launch_if : Launch → Bool → World → World
launch_if l true w = launch l w
launch_if l false w = w

unfoldable pub start_hss_rtc_execution :
    Option String → Value → Bool → Launch → Exec World (Unit {0})
start_hss_rtc_execution build build_info high l = do
  go ← select build build_info high
  Exec.modify (launch_if l go)
