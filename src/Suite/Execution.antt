-- ===== src/Suite/Execution.antt =====
-- HSS_rtc/HSS_rtc: `RTC_controller.run` with what it calls of `RTC_Data`, and the orders that come
-- over UDP (`RemoteControl.read_udp_cmd`). Of `initialize` and `finish` it is what they do to the test
-- case and to the orders; macros in the name of a test case are left out.
use st_tools.Prelude.{
  ℕ, zero, suc, String, Bool, true, false, not, ◌&&◌, ◌||◌, Option, none, some, List, [], ◌∷◌, ◌++◌,
  if◌then◌else◌, get_elem?,
}
use st_tools.Suite.{
  Status, running, skipped, finished, not_finished, TestCase, TestSuite, Moment, update_status,
  shall_repeat, next_text_case, repeat_test_case, next_test_case_is_optional, is_success, update_at,
  set_execution_status,
}

-- `emitted` counts the signals `test_tool_ready_for_new_build`.
pub record Rtc : Type 0 where
  pub suite : TestSuite
  pub exit_rtc : Bool
  pub exit_test_case : Bool
  pub paused : Bool
  pub dbus : Bool
  pub emitted : ℕ

pub data Order : Type 0 where
  quit continue_quit force_quit resume : Order
  -- `set test_execution_status`, with whether it is `FAILED`
  set_status : Bool → Order

unfoldable pub obey : Order → Rtc → Rtc
unfolding set_execution_status
obey quit s = record s { paused = false; exit_rtc = true; exit_test_case = false }
obey continue_quit s = record s { paused = false; exit_test_case = true; exit_rtc = false }
obey force_quit s = record s { paused = false; exit_test_case = true; exit_rtc = true }
obey resume s = record s { paused = false }
obey (set_status failed) s = record s { suite = set_execution_status failed true s.suite }

unfoldable pub obey_all : List Order → Rtc → Rtc
unfolding obey
obey_all [] s = s
obey_all (o ∷ l) s = obey_all l (obey o s)

-- How the phases of a test case end: all of them; the order to exit seen between two; or by an
-- exception. An interrupt by the user may be followed by another one.
pub data Ending : Type 0 where
  completed ordered : Ending
  interrupted : Bool → Ending
  execution_error bat_error : String → Ending
  exits stops_on_fail any_exception : Ending

-- What a test case meets: the orders in the meantime and those during its execution, the reason why it
-- may not be executed, the failures that its checks report, whether one of them makes the report of
-- the suite not valid, its end, and the times.
pub record Round : Type 0 where
  pub before : List Order
  pub refused : Option String
  pub verdicts : List (String × Bool)
  pub is_faulty : Bool
  pub during : List Order
  pub ending : Ending
  pub begins : Moment
  pub stops : Moment

-- `update_verdict(False, ...)`
unfoldable pub report_failures : List (String × Bool) → TestCase → TestCase
report_failures [] t = t
report_failures ((message, again) ∷ l) t =
    report_failures l (record t {
      failure_messages = t.failure_messages ++ message ∷ [];
      repeat = t.repeat || again;
    })

-- The status after the phases. After an order to exit `update_status('finished')` comes as well, and
-- changes nothing.
unfoldable pub end_case : Ending → Moment → TestCase → TestCase
unfolding update_status
end_case completed m t = update_status finished m "" false t
end_case ordered m t =
    update_status finished m "" false
      (update_status not_finished m "Test case exit order has been received" false t)
end_case (interrupted again) m t = update_status not_finished m "Test case stopped by user" false t
end_case (execution_error e) m t = update_status not_finished m e false t
end_case (bat_error e) m t = update_status not_finished m e true t
end_case exits m t = update_status not_finished m "" false t
end_case stops_on_fail m t = update_status not_finished m "" false t
end_case any_exception m t = update_status not_finished m "" false t

-- Whether the end is also the end of the run, with the orders to exit as they stand.
unfoldable pub exit_after : Ending → Bool → Bool → TestCase → Bool
unfolding shall_repeat
exit_after (interrupted again) exit_rtc exit_test_case t = exit_rtc || (not exit_test_case && again)
exit_after exits exit_rtc exit_test_case t = exit_rtc || not (shall_repeat t)
exit_after e exit_rtc exit_test_case t = exit_rtc

abbrev pub is_running : Status → Bool
is_running running = true
is_running s = false

-- `finish`
unfoldable pub finish_case : Moment → TestCase → TestCase
unfolding update_status
finish_case m t =
    if is_running t.status then update_status not_finished m "Abnormal temination" false t else t

abbrev pub change_suite : (TestSuite → TestSuite) → Rtc → Rtc
change_suite f s = record s { suite = f s.suite }

-- The test case at `n`, by what its execution does to it.
abbrev pub change_case : ℕ → (TestCase → TestCase) → Rtc → Rtc
change_case n f = change_suite (λ u. record u { cases = update_at n f u.cases })

abbrev pub case_at : ℕ → Rtc → Option TestCase
case_at n s = get_elem? s.suite.cases n

-- What follows a test case: its repetition, and the signal, with the pause.
abbrev pub repeat_if : Option TestCase → Rtc → Rtc
repeat_if none s = s
repeat_if (some t) s = if shall_repeat t then change_suite repeat_test_case s else s

abbrev pub announce : Rtc → Rtc
announce s =
    if s.dbus && (next_test_case_is_optional s.suite || not (is_success s.suite))
    then record s { emitted = suc s.emitted; paused = true }
    else s

abbrev pub exit_of : Option TestCase → Ending → Rtc → Bool
exit_of none e s = s.exit_rtc
exit_of (some t) e s = exit_after e s.exit_rtc s.exit_test_case t

abbrev pub conclude : ℕ → Round → Rtc → Rtc
conclude n r s =
    let s' = change_case n (end_case r.ending r.stops) s in
    record s' { exit_rtc = exit_of (case_at n s') r.ending s' }

abbrev pub blame : Bool → Rtc → Rtc
blame faulty s = if faulty then change_suite (set_execution_status true false) s else s

-- The test case at `n`, from `initialize` to `finish`.
unfoldable pub execute : ℕ → Round → Rtc → Rtc
unfolding update_status report_failures obey_all set_execution_status end_case exit_after
    finish_case
execute n r s =
    let s0 = record s { exit_rtc = false; exit_test_case = false } in
    let s1 = change_case n (update_status running r.begins "" false) s0 in
    let s2 = blame r.is_faulty (change_case n (report_failures r.verdicts) s1) in
    change_case n (finish_case r.stops) (conclude n r (obey_all r.during s2))

-- `initialize` refuses, or the test case is executed.
unfoldable pub one_case : ℕ → Round → Option String → Rtc → Rtc
unfolding execute repeat_test_case shall_repeat next_test_case_is_optional
one_case n r (some reason) s =
    change_case n (update_status skipped r.begins reason false)
      (record s { exit_rtc = false; exit_test_case = false })
one_case n r none s = let s' = execute n r s in announce (repeat_if (case_at n s') s')

abbrev pub serve : Round → Rtc → Option TestCase × TestSuite → Bool × Rtc
serve r s (none, u) = (true, s)
serve r s (some t, u) = (false, one_case s.suite.next r r.refused (record s { suite = u }))

-- The body of the loop: it ends the run, or there is another round.
unfoldable pub one_round : Round → Rtc → Bool × Rtc
unfolding obey_all one_case next_text_case
one_round r s =
    let s' = obey_all r.before s in
    if s'.paused
    then (false, s')
    else if s'.exit_rtc
    then (true, s')
    else serve r s' (next_text_case s'.suite)

-- The loop, with the rounds that are allowed for, and whether it has ended.
unfoldable pub run : ℕ → (ℕ → Round) → Rtc → Bool × Rtc
unfolding one_round
run zero rounds s = (false, s)
run (suc n) rounds s =
    let (ended, s') = one_round (rounds 0) s in
    let rest = run n (λ i. rounds (suc i)) s' in if ended then (true, s') else rest
