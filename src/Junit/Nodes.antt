-- ===== src/Junit/Nodes.antt =====
-- The nodes of the XML file: how the report is written and read.
use st_tools.Prelude.{
  ℕ, String, Option, none, some, List, [], ◌∷◌, ◌++◌, length, map, ◌==◌, if◌then◌else◌,
}
use st_tools.Prelude.Dict.{Dict, lookup}
use st_tools.Prelude.Exec.{Result, ok, err, type_error, value_error}
use st_tools.Junit.{
  TestCase, TestSuite, set_failure, set_skipped, set_error, is_failure, is_skipped, is_error,
  new_suite, add_case, count_if, get_time,
}

-- "%f" and `float`; `none` is `ValueError`.
pub record Times : Type 0 where
  pub show_time : ℕ → String
  pub read_time : String → Option ℕ

-- A node below a test case: its tag, which is also its attribute `type`, and its text.
pub record Message : Type 0 where
  pub tag : String
  pub text : Option String

pub record CaseNode : Type 0 where
  pub attributes : Dict String
  pub messages : List Message

pub record SuiteNode : Type 0 where
  pub name : String
  pub failures : ℕ
  pub errors : ℕ
  pub skipped : ℕ
  pub time : ℕ
  pub tests : ℕ
  pub cases : List CaseNode

abbrev pub attribute : String → Option String → Dict String
attribute k none = []
attribute k (some v) = (k, v) ∷ []

abbrev pub message : String → Option String → List Message
message tag none = []
message tag (some text) = record { tag = tag; text = some text } ∷ []

-- `TestCase.to_xml_element`, and what is written of it; a name or a time that is missing raises.
unfoldable pub case_node : Times → TestCase → Result CaseNode
case_node times c = elim c.name [
  | none ↦ err type_error
  | some name ↦ elim c.time [
    | none ↦ err type_error
    | some time ↦ ok (record {
      attributes =
          (("name", name) ∷ ("time", times.show_time time) ∷ [])
          ++ (attribute "classname" c.class_name ++ attribute "log" c.log);
      messages =
          message "failure" c.failure_message
          ++ (message "skipped" c.skipped_message ++ message "error" c.error_message);
    })
  ]
]

unfoldable pub case_nodes : Times → List TestCase → Result (List CaseNode)
unfolding case_node
case_nodes times [] = ok []
case_nodes times (c ∷ l) = elim (case_node times c) [
  | err e ↦ err e
  | ok n ↦ elim (case_nodes times l) [ err e ↦ err e | ok ns ↦ ok (n ∷ ns) ]
]

abbrev pub report_node : String → List TestCase → List CaseNode → SuiteNode
report_node name l nodes = record {
  name = name;
  failures = count_if is_failure l;
  errors = count_if is_error l;
  skipped = count_if is_skipped l;
  time = get_time l;
  tests = length l;
  cases = nodes;
}

abbrev pub with_cases : String → List TestCase → Result (List CaseNode) → Result SuiteNode
with_cases name l (err e) = err e
with_cases name l (ok nodes) = ok (report_node name l nodes)

-- `TestSuite.to_xml_element`; a suite without a list of cases or without a name raises.
unfoldable pub suite_node : Times → TestSuite → Result SuiteNode
unfolding case_nodes get_time
suite_node times s = elim s.test_cases [
  | none ↦ err type_error
  | some l ↦ elim s.name [
    | none ↦ err type_error
    | some name ↦ with_cases name l (case_nodes times l)
  ]
]

-- `dump`: the root's nodes.
unfoldable pub dump : Times → List TestSuite → Result (List SuiteNode)
unfolding suite_node
dump times [] = ok []
dump times (s ∷ l) = elim (suite_node times s) [
  | err e ↦ err e
  | ok n ↦ elim (dump times l) [ err e ↦ err e | ok ns ↦ ok (n ∷ ns) ]
]

-- What a parser finds in the file: a text that is empty is no text.
abbrev pub reread_message : Message → Message
reread_message m = record m {
  text = elim m.text [ none ↦ none | some t ↦ if t == "" then none else some t ];
}

abbrev pub reread_case : CaseNode → CaseNode
reread_case n = record n { messages = map reread_message n.messages }

abbrev pub reread : SuiteNode → SuiteNode
reread n = record n { cases = map reread_case n.cases }

-- `find`
unfoldable pub find : String → List Message → Option Message
find tag [] = none
find tag (m ∷ l) = if m.tag == tag then some m else find tag l

-- A message that is set from a node's text; without text, `TypeError`.
abbrev pub set_from : (String → TestCase → TestCase) → Message → TestCase → Result TestCase
set_from set m c = elim m.text [ none ↦ err type_error | some t ↦ ok (set t c) ]

abbrev pub set_if : (String → TestCase → TestCase) → Option Message → TestCase → Result TestCase
set_if set none c = ok c
set_if set (some m) c = set_from set m c

-- The failure, or else why it was skipped.
abbrev pub failure_or_skipped : Option Message → Option Message → TestCase → Result TestCase
failure_or_skipped none skipped c = set_if set_skipped skipped c
failure_or_skipped (some m) skipped c = set_from set_failure m c

abbrev pub then_error : Option Message → Result TestCase → Result TestCase
then_error m (err e) = err e
then_error m (ok c) = set_if set_error m c

abbrev pub read_messages : List Message → TestCase → Result TestCase
read_messages l c =
    then_error (find "error" l) (failure_or_skipped (find "failure" l) (find "skipped" l) c)

-- A test case with what its attributes say.
abbrev pub plain_case : Option String → ℕ → Option String → Option String → TestCase
plain_case name time class_name log = record {
  name = name;
  time = some time;
  class_name = class_name;
  log = log;
  skipped_message = none;
  error_message = none;
  failure_message = none;
}

-- The text of the attribute `time`, and the number that it shows.
abbrev pub with_time :
    Option String → Option String → Option String → List Message → Option ℕ → Result TestCase
with_time name class_name log l none = err value_error
with_time name class_name log l (some time) = read_messages l (plain_case name time class_name log)

abbrev pub from_attributes :
    Times
    → Option String
    → Option String
    → Option String
    → List Message
    → Option String
    → Result TestCase
from_attributes times name class_name log l none = err type_error
from_attributes times name class_name log l (some shown) =
    with_time name class_name log l (times.read_time shown)

unfoldable pub get_testcase_obj : Times → CaseNode → Result TestCase
unfolding find set_failure set_skipped set_error
get_testcase_obj times n =
    from_attributes times (lookup "name" n.attributes) (lookup "classname" n.attributes)
      (lookup "log" n.attributes) n.messages (lookup "time" n.attributes)

unfoldable pub load_cases : Times → List CaseNode → TestSuite → Result TestSuite
unfolding get_testcase_obj add_case
load_cases times [] s = ok s
load_cases times (n ∷ l) s = elim (get_testcase_obj times n) [
  | err e ↦ err e
  | ok c ↦ load_cases times l (add_case c s)
]

-- `load`, of a file that is there, behind the suites that are known.
unfoldable pub load : Times → List SuiteNode → List TestSuite → Result (Unit {0}) × List TestSuite
unfolding load_cases
load times [] known = (ok tt, known)
load times (n ∷ l) known = elim (load_cases times n.cases (new_suite (some n.name))) [
  | err e ↦ (err e, known)
  | ok s ↦ load times l (known ++ s ∷ [])
]
