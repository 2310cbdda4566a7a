-- ===== src/Junit/Readable.antt =====
-- What may stand in an XML file, and that the nodes of a report do.
use mathlib.Core.Path.{subst}
use st_tools.Prelude.{◌≢◌, ℕ, ◌≤◌, String, Option, none, some, List, [], ◌∷◌, ◌++◌, All}
use st_tools.Junit.{TestCase, TestSuite}
use st_tools.Junit.Nodes.{Times, Message, CaseNode, SuiteNode, message, attribute}
use st_tools.Junit.Clean.{
  IsXmlChar, AllChars, IsLegal, clean-IsLegal, legal-IsXmlChar, legal-return,
}
use st_tools.Junit.Roundtrip.{IsText, node_of, attributes, messages}

-- A value of an attribute that a parser does not change: of the characters below a space, those that
-- XML has are read as spaces or not at all.
abbrev pub IsAttribute : String → Type 0
IsAttribute s = AllChars (λ n. IsXmlChar n × (0x20 ≤ n)) s

abbrev pub IsAttributeOf : Option String → Type 0
IsAttributeOf none = Unit
IsAttributeOf (some s) = IsAttribute s

-- A text that it does not change: a return is read as a line feed.
abbrev pub IsContent : String → Type 0
IsContent s = AllChars (λ n. IsXmlChar n × (n ≢ 0xD)) s

abbrev pub IsReadableMessage : Message → Type 0
IsReadableMessage m = elim m.text [ none ↦ Unit | some t ↦ IsContent t ]

abbrev pub IsReadableCase : CaseNode → Type 0
IsReadableCase n = All (λ p. IsAttribute p.1) n.attributes × All IsReadableMessage n.messages

abbrev pub IsReadable : SuiteNode → Type 0
IsReadable n = IsAttribute n.name × All IsReadableCase n.cases

-- The names and the log of a test case, and the names of a suite and of its test cases.
abbrev pub IsNamedCase : TestCase → Type 0
IsNamedCase c = IsAttributeOf c.name × IsAttributeOf c.class_name × IsAttributeOf c.log

abbrev pub IsNamedCases : Option (List TestCase) → Type 0
IsNamedCases none = Unit
IsNamedCases (some l) = All IsNamedCase l

abbrev pub IsNamed : TestSuite → Type 0
IsNamed s = IsAttributeOf s.name × IsNamedCases s.test_cases

All-append : {A : Type 0} (P : A → Type 0) (l m : List A) → All P l → All P m → All P (l ++ m)
All-append P [] m h k = k
All-append P (x ∷ l) m h k = (h.0, All-append P l m h.1 k)

legal-IsContent : (s : String) → IsLegal s → IsContent s
legal-IsContent String.[] h = tt
legal-IsContent (String.◌∷◌ c s) h =
    ((legal-IsXmlChar _ h.0, legal-return _ h.0), legal-IsContent s h.1)

message-All : (tag : String) (o : Option String) → IsText o → All IsReadableMessage (message tag o)
message-All tag none h = tt
message-All tag (some m) h = (legal-IsContent m (subst IsLegal h.0 (clean-IsLegal m)), tt)

attribute-All :
    (k : String) (o : Option String)
    → IsAttributeOf o
    → All (λ (p : String × String). IsAttribute p.1) (attribute k o)
attribute-All k none h = tt
attribute-All k (some v) h = (h, tt)

-- Times are shown in such characters.
abbrev pub ShowsAttribute : Times → Type 0
ShowsAttribute times = (t : ℕ) → IsAttribute (times.show_time t)

pub node_of-IsReadableCase :
    (times : Times) (n : String) (t : ℕ) (cl lg fa sk er : Option String)
    → ShowsAttribute times
    → IsAttribute n
    → IsAttributeOf cl
    → IsAttributeOf lg
    → IsText fa
    → IsText sk
    → IsText er
    → IsReadableCase (node_of times n t cl lg fa sk er)
unfolding node_of attributes messages
node_of-IsReadableCase times n t cl lg fa sk er shows a b c d e f = (
  (
    a,
    (
      shows t,
      All-append (λ (p : String × String). IsAttribute p.1) (attribute "classname" cl)
          (attribute "log" lg) (attribute-All "classname" cl b) (attribute-All "log" lg c),
    ),
  ),
  All-append IsReadableMessage (message "failure" fa) (message "skipped" sk ++ message "error" er)
      (message-All "failure" fa d)
      (All-append IsReadableMessage (message "skipped" sk) (message "error" er)
        (message-All "skipped" sk e) (message-All "error" er f)),
)
