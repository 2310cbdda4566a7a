-- ===== src/Controller/Dispatch/Refusals.antt =====
-- What a paused service and a running test make of a signal.
use st_tools.Prelude.{
  ◌≡◌, ◌⊎◌, String, Bool, true, false, Option, none, [], ◌∷◌, ◌++◌, arith, inl, inr,
}
use st_tools.Json.{Value, null}
use st_tools.BuildHandler.Queue.{is_there_build_to_test}
use st_tools.Controller.{World, command, quit, resume, ongoing_test, send, clean}
use st_tools.Controller.Launch.{Launch, started, start_hss_rtc_execution, launch, fail, report}
use st_tools.Controller.Launch.Outcome.{start-cases}
use st_tools.Controller.Signals
use st_tools.Controller.Dispatch.{
  Signal, check_priority_list, set_test_to_faulty, test_tool_ready_for_new_build, priority_increase,
  dispatch,
}

-- The signals that other services and the test tool send, but for the end of the test tool.
abbrev pub is_service_signal : Signal → Bool
is_service_signal (check_priority_list l) = true
is_service_signal (set_test_to_faulty b) = true
is_service_signal (test_tool_ready_for_new_build b) = true
is_service_signal (priority_increase b p) = true
is_service_signal g = false

-- A paused service does not act on the signals of other services and of the test tool, other than
-- the shutdown of the test tool: its state stays as it was, and at most it tells the test tool to
-- resume.
pub dispatch_paused :
    (g : Signal) (w : World)
    → is_service_signal g ≡ true
    → w.service_paused ≡ true
    → (dispatch g w ≡ w) ⊎ (dispatch g w ≡ record w { sent = w.sent ++ command resume ∷ [] })
unfolding dispatch Signals.check_priority_list Signals.set_test_to_faulty
    Signals.test_tool_ready_for_new_build Signals.priority_increase send
dispatch_paused (check_priority_list l) w s p = ground arith
dispatch_paused (set_test_to_faulty b) w s p = ground arith
dispatch_paused (test_tool_ready_for_new_build b) w s p = ground arith
dispatch_paused (priority_increase b q) w s p = ground arith
dispatch_paused _ w s p = cc

launch-sent : (l : Launch) (w : World) → (launch l w).sent ≡ w.sent
unfolding launch fail report clean
launch-sent started w = ground arith
launch-sent _ w = ground arith

start-sent :
    (b : Option String) (i : Value) (h : Bool) (l : Launch) (w : World)
    → (start_hss_rtc_execution b i h l w).1.sent ≡ w.sent
start-sent b i h l w = elim (start-cases b i h l w) [
  | inl (v, s, e) ↦ rw e s.same_sent
  | inr (v, s, some_build, e) ↦ rw e (ground (arith, launch-sent l v, s.same_sent))
]

-- A check of the priority list sends nothing, or it tells a running test to quit; the second only
-- in a service that is not paused, where the test may be stopped and another build waits.
pub check_priority_list-sent :
    (l : Launch) (w : World)
    → let v = dispatch (check_priority_list l) w in
      (v.sent ≡ w.sent)
      ⊎ ((v ≡ record w { sent = w.sent ++ command quit ∷ [] })
          × (w.service_paused ≡ false)
          × (ongoing_test w ≡ true)
          × (w.current_test_can_be_stopped ≡ true)
          × (is_there_build_to_test w.builds ≡ true))
unfolding dispatch Signals.check_priority_list Signals.next_test send ongoing_test
check_priority_list-sent l w = ground (arith, start-sent none null false l w)
