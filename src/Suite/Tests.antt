-- ===== src/Suite/Tests.antt =====
-- A suite of two test cases, of which the first may be repeated once.
use st_tools.Prelude.{ℕ, suc, ◌≡◌, ◌⊎◌, refl, arith, true, false, none, List, [], ◌∷◌, All, map}
use st_tools.Prelude.Int.{pos, ◌-ℤ◌}
use st_tools.Suite.{TestCase, TestSuite, Moment, finished, not_finished, read_case}
use st_tools.Suite.Execution.{Rtc, Round, bat_error, run}
use st_tools.Suite.Progress.{IsOver, executions}
use st_tools.Suite.Ends.{run-ends}

abbrev cases : List TestCase
cases = read_case "load" true (pos 1) ∷ read_case "smoke" true (pos 0) ∷ []

abbrev rtc : Rtc
rtc = record {
  suite = record { name = "night"; cases = cases; next = 0 };
  exit_rtc = false;
  exit_test_case = false;
  paused = false;
  dbus = false;
  emitted = 0;
}

abbrev moment : ℕ → Moment
moment n = record { now = n; date = "20260101" }

-- A BAT instance breaks in every execution.
abbrev breaking : ℕ → Round
breaking n = record {
  before = [];
  refused = none;
  verdicts = [];
  is_faulty = true;
  during = [];
  ending = bat_error "BAT is down";
  begins = moment n;
  stops = moment (suc n);
}

statuses :
    map (λ t. t.status) (run 4 breaking rtc).1.suite.cases
    ≡ not_finished ∷ not_finished ∷ not_finished ∷ []
unfolding run ◌-ℤ◌
statuses = refl

-- Only the report of the repetition counts.
reports :
    map (λ t. t.report_not_valid) (run 4 breaking rtc).1.suite.cases ≡ false ∷ true ∷ true ∷ []
unfolding run ◌-ℤ◌
reports = refl

three_ahead : executions 0 cases ≡ 3
unfolding executions
three_ahead = refl

run-ends_example :
    let (done, t) = run 4 breaking rtc in
    (done ≡ true) × ((t.exit_rtc ≡ true) ⊎ All IsOver t.suite.cases)
run-ends_example =
    run-ends 3 breaking rtc ((refl, refl), ((refl, refl), tt)) (omega (arith, three_ahead)) refl
      refl

abbrev ended : TestSuite
ended = record {
  name = "night";
  cases = record (read_case "load" true (pos 1)) { status = finished } ∷ [];
  next = 1;
}
