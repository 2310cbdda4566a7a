-- ===== src/Suite/Cases.antt =====
-- One test case while it is executed.
use st_tools.Prelude.{
  ◌≡◌, ◌⊎◌, refl, ◌∙◌, arith, String, Bool, true, false, List, [], ◌∷◌, ◌||◌, ◌++◌, ◌==◌,
  if◌then◌else◌,
}
use st_tools.Prelude.Int.{ℤ}
use st_tools.Suite.{
  Status, not_executed, running, skipped, finished, not_finished, TestCase, Moment, update_status,
  change_status,
}
use st_tools.Suite.Execution.{
  Ending, completed, ordered, interrupted, execution_error, bat_error, exits, stops_on_fail,
  any_exception, report_failures, end_case, finish_case, is_running,
}
use st_tools.Suite.Progress.{is_over, IsOver}

-- What a test case is in the states that its execution goes through.
abbrev pub New : ℤ → TestCase → Type 0
New k t = (t.status ≡ not_executed) × (t.nof_retries ≡ k)

abbrev pub Busy : ℤ → TestCase → Type 0
Busy k t = (t.status ≡ running) × (t.nof_retries ≡ k)

abbrev Ready : ℤ → TestCase → Type 0
Ready k t = ((t.status ≡ running) ⊎ IsOver t) × (t.nof_retries ≡ k)

abbrev pub Over : ℤ → TestCase → Type 0
Over k t = IsOver t × (t.nof_retries ≡ k)

pub start_case :
    (k : ℤ) (m : Moment) (t : TestCase) → New k t → Busy k (update_status running m "" false t)
unfolding update_status
start_case k m t (s, r) = rw s (refl, r)

pub skip_case :
    (k : ℤ) (m : Moment) (e : String) (t : TestCase)
    → New k t
    → Over k (update_status skipped m e false t)
unfolding update_status
skip_case k m e t (s, r) = rw s (refl, r)

pub report_failures-Busy :
    (k : ℤ) (l : List (String × Bool)) (t : TestCase) → Busy k t → Busy k (report_failures l t)
unfolding report_failures
report_failures-Busy k [] t h = h
report_failures-Busy k ((message, again) ∷ l) t h = report_failures-Busy k l _ h

fail_with-retries :
    (b : Bool) (e : String) (again : Bool) (t : TestCase)
    → (if b then t else record t {
      failure_messages = t.failure_messages ++ e ∷ [];
      repeat = t.repeat || again;
    }).nof_retries
      ≡ t.nof_retries
fail_with-retries true e again t = refl
fail_with-retries false e again t = refl

not_finished-Over :
    (k : ℤ) (m : Moment) (e : String) (again : Bool) (t : TestCase)
    → Busy k t
    → Over k (update_status not_finished m e again t)
unfolding update_status
not_finished-Over k m e again t (s, r) =
    rw s (refl, fail_with-retries (e == "") e again (record t { status = running }) ∙ r)

finished-Over :
    (k : ℤ) (m : Moment) (t : TestCase) → Busy k t → Over k (update_status finished m "" false t)
unfolding update_status
finished-Over k m t (s, r) = rw s (refl, fail_with-retries ("" == "") "" false t ∙ r)

-- An ended case stays as it is.
change_status-Over :
    (k : ℤ) (s : Status) (m : Moment) (t : TestCase)
    → is_over s ≡ true
    → Over k t
    → Over k (change_status s finished m "" false t)
change_status-Over k not_executed m t e h = h
change_status-Over k running m t e h = ground (arith, e)
change_status-Over k skipped m t e h = h
change_status-Over k finished m t e h = h
change_status-Over k not_finished m t e h = h

over-is_running : (s : Status) → is_over s ≡ true → is_running s ≡ false
over-is_running s e = ground arith

finished_again-Over :
    (k : ℤ) (m : Moment) (t : TestCase) → Over k t → Over k (update_status finished m "" false t)
unfolding update_status
finished_again-Over k m t h = change_status-Over k t.status m t h.0 h

pub end_case-Over :
    (k : ℤ) (e : Ending) (m : Moment) (t : TestCase) → Busy k t → Over k (end_case e m t)
unfolding end_case
end_case-Over k completed m t h = finished-Over k m t h
end_case-Over k ordered m t h =
    finished_again-Over k m
      (update_status not_finished m "Test case exit order has been received" false t)
      (not_finished-Over k m "Test case exit order has been received" false t h)
end_case-Over k (interrupted again) m t h =
    not_finished-Over k m "Test case stopped by user" false t h
end_case-Over k (execution_error e) m t h = not_finished-Over k m e false t h
end_case-Over k (bat_error e) m t h = not_finished-Over k m e true t h
end_case-Over k exits m t h = not_finished-Over k m "" false t h
end_case-Over k stops_on_fail m t h = not_finished-Over k m "" false t h
end_case-Over k any_exception m t h = not_finished-Over k m "" false t h

pub finish_case-Over : (k : ℤ) (m : Moment) (t : TestCase) → Over k t → Over k (finish_case m t)
unfolding finish_case
finish_case-Over k m t h = rw (over-is_running t.status h.0) h
