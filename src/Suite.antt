-- ===== src/Suite.antt =====
-- HSS_rtc/HSS_rtc_lib/components/test_suite.py: the test cases of a suite and their states.
pub mod Execution
pub mod Progress
pub mod Cases
pub mod Run
pub mod Ends
pub mod States
pub mod Counts
mod Tests
use st_tools.Prelude.{
  ℕ, zero, suc, ◌+◌, String, Bool, true, false, not, ◌&&◌, ◌||◌, Option, none, some, List, [], ◌∷◌,
  ◌++◌, length, get_elem?, last?, ltb, ◌==◌, if◌then◌else◌,
}
use st_tools.Prelude.Int.{ℤ, pos, ◌-ℤ◌}
use st_tools.Prelude.Text.{join}

pub data Status : Type 0 where
  not_executed running skipped finished not_finished : Status

-- `config_name` and the first `nof_retries` are what the json file holds.
pub record TestCase : Type 0 where
  pub name : String
  pub config_name : String
  pub status : Status
  pub is_mandatory : Bool
  pub failure_messages : List String
  pub skipped_message : String
  pub start_time : Option ℕ
  pub stop_time : Option ℕ
  pub reexecution : Bool
  pub repeat : Bool
  pub report_not_valid : Bool
  pub nof_retries : ℤ

-- `next` is `__current_text_case` and one more.
pub record TestSuite : Type 0 where
  pub name : String
  pub cases : List TestCase
  pub next : ℕ

-- What is read when a status changes: the time, and the date that is added to the name.
pub record Moment : Type 0 where
  pub now : ℕ
  pub date : String

-- A test case as it is read from its file.
abbrev pub read_case : String → Bool → ℤ → TestCase
read_case name mandatory retries = record {
  name = name;
  config_name = name;
  status = not_executed;
  is_mandatory = mandatory;
  failure_messages = [];
  skipped_message = "";
  start_time = none;
  stop_time = none;
  reexecution = false;
  repeat = false;
  report_not_valid = false;
  nof_retries = retries;
}

abbrev pub is_optional : TestCase → Bool
is_optional t = not t.is_mandatory

abbrev pub is_zero : ℤ → Bool
is_zero (pos zero) = true
is_zero n = false

unfoldable pub shall_repeat : TestCase → Bool
shall_repeat t = not (is_zero t.nof_retries) && t.repeat

-- The message of a test case that ends.
abbrev pub fail_with : String → Bool → TestCase → TestCase
fail_with message again t = if message == "" then t else record t {
  failure_messages = t.failure_messages ++ message ∷ [];
  repeat = t.repeat || again;
}

-- `update_status`; a change that is not among these is only logged.
abbrev pub change_status : Status → Status → Moment → String → Bool → TestCase → TestCase
change_status not_executed running m message again t = record t {
  name = join "_" (t.name ∷ m.date ∷ []);
  start_time = some m.now;
  status = running;
}
change_status not_executed skipped m message again t = record t {
  skipped_message = message;
  status = skipped;
}
change_status running finished m message again t = record (fail_with message again t) {
  stop_time = some m.now;
  status = finished;
}
change_status running not_finished m message again t = record (fail_with message again t) {
  stop_time = some m.now;
  status = not_finished;
}
change_status s s' m message again t = t

unfoldable pub update_status : Status → Moment → String → Bool → TestCase → TestCase
unfolding join
update_status s m message again t = change_status t.status s m message again t

-- `clone`: the file is read again.
unfoldable pub clone : TestCase → TestCase
clone t = record (read_case t.config_name t.is_mandatory (t.nof_retries -ℤ pos 1)) {
  reexecution = true;
}

unfoldable pub update_at : ℕ → (TestCase → TestCase) → List TestCase → List TestCase
update_at n f [] = []
update_at zero f (t ∷ l) = f t ∷ l
update_at (suc n) f (t ∷ l) = t ∷ update_at n f l

-- `l.insert(n, t)`
unfoldable pub insert_at : ℕ → TestCase → List TestCase → List TestCase
insert_at zero t l = t ∷ l
insert_at (suc n) t [] = t ∷ []
insert_at (suc n) t (u ∷ l) = u ∷ insert_at n t l

abbrev pub step_to : Option TestCase → TestSuite → Option TestCase × TestSuite
step_to none s = (none, s)
step_to (some t) s = (some t, record s { next = suc s.next })

unfoldable pub next_text_case : TestSuite → Option TestCase × TestSuite
next_text_case s = step_to (get_elem? s.cases s.next) s

-- The position of the current test case; before the first one it is the last of the list.
abbrev pub last_index : List TestCase → ℕ
last_index [] = 0
last_index (t ∷ l) = length l

abbrev pub current : TestSuite → ℕ
current s = elim s.next [ zero ↦ last_index s.cases | suc n ↦ n ]

abbrev pub forgive : TestCase → TestCase
forgive t = record t { report_not_valid = false }

abbrev pub repeat_at : ℕ → Option TestCase → TestSuite → TestSuite
repeat_at n none s = s
repeat_at n (some t) s = record s {
  cases = insert_at s.next (clone t) (update_at n forgive s.cases);
}

-- The clone comes next, and what the report of the first execution said no longer counts.
unfoldable pub repeat_test_case : TestSuite → TestSuite
unfolding clone insert_at update_at
repeat_test_case s = repeat_at (current s) (get_elem? s.cases (current s)) s

unfoldable pub next_test_case_is_optional : TestSuite → Bool
next_test_case_is_optional s = elim (get_elem? s.cases s.next) [
  | none ↦ false
  | some t ↦ is_optional t
]

abbrev pub any_not_valid : List TestCase → Bool
any_not_valid [] = false
any_not_valid (t ∷ l) = t.report_not_valid || any_not_valid l

-- `status` of the suite is `SUCCESS`.
abbrev pub is_success : TestSuite → Bool
is_success s = not (any_not_valid s.cases)

abbrev pub is_ended : Status → Bool
is_ended finished = true
is_ended not_finished = true
is_ended s = false

unfoldable pub set_all : Bool → List TestCase → List TestCase
set_all failed [] = []
set_all failed (t ∷ l) =
    (if is_ended t.status then record t { report_not_valid = failed } else t) ∷ set_all failed l

-- `set_test_suite_execution_status`
unfoldable pub set_execution_status : Bool → Bool → TestSuite → TestSuite
unfolding set_all update_at
set_execution_status failed force s = record s {
  cases =
      if force
      then set_all failed s.cases
      else update_at (current s) (λ t. record t { report_not_valid = failed }) s.cases;
}
