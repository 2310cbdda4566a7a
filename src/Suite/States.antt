-- ===== src/Suite/States.antt =====
-- How the status of a test case changes, and the times that go with it.
use st_tools.Prelude.{
  ◌≡◌, refl, ℕ, String, Bool, true, false, Option, none, is_some, ◌==◌, if◌then◌else◌, ◌++◌, ◌∷◌,
  [], ◌||◌,
}
use st_tools.Suite.{
  Status, not_executed, running, skipped, finished, not_finished, TestCase, Moment, update_status,
  change_status,
}

-- The moves between the states.
pub data Turns : Status → Status → Type 0 where
  same : {s : Status} → Turns s s
  starts : Turns not_executed running
  skips : Turns not_executed skipped
  ends : Turns running finished
  breaks : Turns running not_finished

-- The times that the report reads are there: the start of a case that runs, and both of one that ran.
abbrev pub IsTimed : Status → Option ℕ → Option ℕ → Type 0
IsTimed not_executed start stop = (start ≡ none) × (stop ≡ none)
IsTimed skipped start stop = (start ≡ none) × (stop ≡ none)
IsTimed running start stop = (is_some start ≡ true) × (stop ≡ none)
IsTimed finished start stop = (is_some start ≡ true) × (is_some stop ≡ true)
IsTimed not_finished start stop = (is_some start ≡ true) × (is_some stop ≡ true)

abbrev Fine : Status → TestCase → Type 0
Fine s t = Turns s t.status × IsTimed t.status t.start_time t.stop_time

fail_with-start_time :
    (b : Bool) (e : String) (again : Bool) (t : TestCase)
    → (if b then t else record t {
      failure_messages = t.failure_messages ++ e ∷ [];
      repeat = t.repeat || again;
    }).start_time
      ≡ t.start_time
fail_with-start_time true e again t = refl
fail_with-start_time false e again t = refl

stays_as :
    (s : Status) (t : TestCase) → t.status ≡ s → IsTimed s t.start_time t.stop_time → Fine s t
stays_as s t f h = rw f (same, h)

change_status-Fine :
    (s s' : Status) (m : Moment) (e : String) (again : Bool) (t : TestCase)
    → t.status ≡ s
    → IsTimed s t.start_time t.stop_time
    → Fine s (change_status s s' m e again t)
change_status-Fine not_executed not_executed m e again t f h = stays_as not_executed t f h
change_status-Fine not_executed running m e again t f h = (starts, (refl, h.1))
change_status-Fine not_executed skipped m e again t f h = (skips, h)
change_status-Fine not_executed finished m e again t f h = stays_as not_executed t f h
change_status-Fine not_executed not_finished m e again t f h = stays_as not_executed t f h
change_status-Fine running not_executed m e again t f h = stays_as running t f h
change_status-Fine running running m e again t f h = stays_as running t f h
change_status-Fine running skipped m e again t f h = stays_as running t f h
change_status-Fine running finished m e again t f h =
    (ends, (rw (fail_with-start_time (e == "") e again t) h.0, refl))
change_status-Fine running not_finished m e again t f h =
    (breaks, (rw (fail_with-start_time (e == "") e again t) h.0, refl))
change_status-Fine skipped not_executed m e again t f h = stays_as skipped t f h
change_status-Fine skipped running m e again t f h = stays_as skipped t f h
change_status-Fine skipped skipped m e again t f h = stays_as skipped t f h
change_status-Fine skipped finished m e again t f h = stays_as skipped t f h
change_status-Fine skipped not_finished m e again t f h = stays_as skipped t f h
change_status-Fine finished not_executed m e again t f h = stays_as finished t f h
change_status-Fine finished running m e again t f h = stays_as finished t f h
change_status-Fine finished skipped m e again t f h = stays_as finished t f h
change_status-Fine finished finished m e again t f h = stays_as finished t f h
change_status-Fine finished not_finished m e again t f h = stays_as finished t f h
change_status-Fine not_finished not_executed m e again t f h = stays_as not_finished t f h
change_status-Fine not_finished running m e again t f h = stays_as not_finished t f h
change_status-Fine not_finished skipped m e again t f h = stays_as not_finished t f h
change_status-Fine not_finished finished m e again t f h = stays_as not_finished t f h
change_status-Fine not_finished not_finished m e again t f h = stays_as not_finished t f h

-- A status changes only from not executed to running or skipped, and from running to finished or not
-- finished, and the times of start and stop are there in the states whose report shows them.
update_status-Turns :
    (s : Status) (m : Moment) (message : String) (again : Bool) (t : TestCase)
    → IsTimed t.status t.start_time t.stop_time
    → let u = update_status s m message again t in
      Turns t.status u.status × IsTimed u.status u.start_time u.stop_time
unfolding update_status
update_status-Turns s m message again t h = change_status-Fine t.status s m message again t refl h
