-- ===== src/Controller/Signals.antt =====
-- The signals of the other services and of the test tool.
use st_tools.Prelude.{String, Bool, true, false, not, ◌&&◌, none, some, ◌==◌, if◌then◌else◌}
use st_tools.Prelude.Exec.{Exec, ok}
use st_tools.Json.{Value, null}
use st_tools.BuildHandler.{cancelled}
use st_tools.BuildHandler.Queue.{is_there_build_to_test}
use st_tools.BuildHandler.Builds.{add_build_test_result, update_build_status}
use st_tools.Controller.{
  quit, resume, discard, set_high_priority, RtcHandler, World, emit, Event, call_service,
  ongoing_test, send, with_handler, clean,
}
use st_tools.Controller.Launch.{Launch, start_hss_rtc_execution}

-- `self.build == build`
abbrev pub is_build : World → String → Bool
is_build w build = elim w.build [ none ↦ false | some b ↦ b == build ]

-- A test is stopped or started if some build waits for it.
unfoldable pub next_test : Launch → Exec World (Unit {0})
unfolding send ongoing_test
next_test l w =
    if is_there_build_to_test w.builds
    then (if ongoing_test w
        then (if w.current_test_can_be_stopped
            then with_handler (λ r. send r quit) w
            else (ok tt, w))
        else start_hss_rtc_execution none null false l w)
    else (ok tt, w)

unfoldable pub check_priority_list : Launch → Exec World (Unit {0})
check_priority_list l w =
    if w.service_paused
    then (ok tt, w)
    else if w.high_priority && not w.current_test_can_be_stopped
    then (ok tt, w)
    else next_test l w

-- The end of `set_test_to_faulty`.
unfoldable pub cancel_test : String → RtcHandler → World → World
unfolding send
cancel_test build r w =
    let told = send r discard w in
    let marked = call_service (update_build_status build cancelled) told in
    emit Event.check_priority_list (record marked { current_test_can_be_stopped = true })

unfoldable pub set_test_to_faulty : String → World → World
unfolding cancel_test
set_test_to_faulty build w =
    if w.service_paused
    then w
    else if not (is_build w build)
    then w
    else elim w.rtc_handler [ none ↦ w | some r ↦ cancel_test build r w ]

-- `self.__rtc_handler.high_priority = True` and `self.high_priority = True`
unfoldable pub raise_priority : RtcHandler → World → World
unfolding send
raise_priority r w =
    send r (set_high_priority true)
      (record w { rtc_handler = some (record r { high_priority = true }); high_priority = true })

abbrev may_stop : Bool → World → World
may_stop b w =
    if b
    then emit Event.check_priority_list (record w { current_test_can_be_stopped = true })
    else w

unfoldable pub priority_increase : String → Bool → World → World
unfolding raise_priority ongoing_test
priority_increase build was_pending w =
    if w.service_paused
    then w
    else if ongoing_test w && is_build w build
    then (elim w.rtc_handler [ none ↦ w | some r ↦ raise_priority r w ])
    else may_stop (not w.high_priority && was_pending) w

-- The test goes on, unless there is another build to test.
unfoldable pub test_tool_ready_for_new_build : String → Exec World (Unit {0})
unfolding send
test_tool_ready_for_new_build build w =
    if w.service_paused
    then (elim w.rtc_handler [ none ↦ (ok tt, w) | some r ↦ (ok tt, send r resume w) ])
    else if not (is_build w build)
    then (ok tt, w)
    else if is_there_build_to_test w.builds
    then (ok tt, emit Event.check_priority_list (record w { current_test_can_be_stopped = true }))
    else with_handler (λ r. send r resume) (record w { current_test_can_be_stopped = true })

unfoldable pub test_tool_shutdown : String → Value → World → World
unfolding clean
test_tool_shutdown build result w =
    let told = call_service (add_build_test_result build result) w in
    if is_build w build then emit Event.check_priority_list (clean told) else told
