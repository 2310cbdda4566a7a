-- ===== src/Junit/Reload.antt =====
-- A report that is written is read again as it was.
use mathlib.Core.Path.{subst}
use st_tools.Prelude.{
  ◌≡◌, refl, sym, ap, ◌∙◌, String, Option, some, List, [], ◌∷◌, ◌++◌, map, All, append_assoc,
  append-nil,
}
use st_tools.Prelude.Exec.{ok}
use st_tools.Junit.{TestCase, TestSuite, new_suite, add_case}
use st_tools.Junit.Nodes.{
  Times, CaseNode, SuiteNode, case_node, case_nodes, with_cases, report_node, suite_node, dump,
  reread_case, reread, get_testcase_obj, load_cases, load,
}
use st_tools.Junit.Readable.{
  IsAttribute, IsAttributeOf, IsReadableCase, IsReadable, IsNamedCase, IsNamedCases, IsNamed,
  ShowsAttribute, node_of-IsReadableCase,
}
use st_tools.Junit.Roundtrip.{
  IsPlain, IsExact, node_of, node_back, case_node-case_of, plain_case_of,
}

-- A case is written, and its node is read as the case.
case_back :
    (times : Times) (exact : IsExact times) (c : TestCase)
    → IsPlain c
    → ShowsAttribute times
    → IsNamedCase c
    → (node : CaseNode) × (case_node times c ≡ ok node)
      × (get_testcase_obj times (reread_case node) ≡ ok c)
      × IsReadableCase node
case_back times exact c ((n, e), (t, f), fa, sk, er, o) shows (name, class_name, log) =
    let same = plain_case_of c n t e f in
    (
      node_of times n t c.class_name c.log c.failure_message c.skipped_message c.error_message,
      ap (case_node times) (sym same)
          ∙ case_node-case_of times n t c.class_name c.log c.failure_message c.skipped_message
              c.error_message,
      node_back times exact n t c.class_name c.log c.failure_message c.skipped_message
            c.error_message fa sk er o
          ∙ ap ok same,
      node_of-IsReadableCase times n t c.class_name c.log c.failure_message c.skipped_message
          c.error_message shows (subst IsAttributeOf e name) class_name log fa sk er,
    )

-- The cases of a suite, behind those that are read.
cases_back :
    (times : Times) (exact : IsExact times) (l : List TestCase)
    → All IsPlain l
    → ShowsAttribute times
    → All IsNamedCase l
    → (nodes : List CaseNode) × (case_nodes times l ≡ ok nodes)
      × All IsReadableCase nodes
      × ((name : Option String) (known : List TestCase)
          → load_cases times
              (map reread_case nodes)
              (record { name = name; test_cases = some known })
            ≡ ok (record { name = name; test_cases = some (known ++ l) }))
unfolding case_nodes load_cases add_case
cases_back times exact [] h shows k = ([], refl, tt, λ name known. rw (append-nil known) refl)
cases_back times exact (c ∷ l) (p, h) shows k =
    let (node, e, f, g) = case_back times exact c p shows k.0 in
    let (nodes, e', g', f') = cases_back times exact l h shows k.1 in
    (
      node ∷ nodes,
      rw (e, e', case_nodes) refl,
      (g, g'),
      λ name known.
          rw (f, load_cases)
            (f' name (known ++ c ∷ [])
              ∙ ap (λ x. ok (record { name = name; test_cases = some x }))
                  (append_assoc known (c ∷ []) l)),
    )

-- A suite has a name and a list of such cases that is not empty.
abbrev pub IsReport : TestSuite → Type 0
IsReport s =
    ((n : String) × (s.name ≡ some n))
    × ((c : TestCase) × (l : List TestCase) × (s.test_cases ≡ some (c ∷ l)) × All IsPlain (c ∷ l))

suite_back :
    (times : Times) (exact : IsExact times) (n : String) (c : TestCase) (l : List TestCase)
    → All IsPlain (c ∷ l)
    → ShowsAttribute times
    → IsAttribute n
    → All IsNamedCase (c ∷ l)
    → (node : SuiteNode) × (suite_node times (record { name = some n; test_cases = some (c ∷ l) })
        ≡ ok node)
      × (load_cases times (reread node).cases (new_suite (some (reread node).name))
          ≡ ok (record { name = some n; test_cases = some (c ∷ l) }))
      × IsReadable node
unfolding suite_node case_nodes load_cases add_case
suite_back times exact n c l (p, h) shows a k =
    let (node, e, f, g) = case_back times exact c p shows k.0 in
    let (nodes, e', g', f') = cases_back times exact l h shows k.1 in
    let both : case_nodes times (c ∷ l) ≡ ok (node ∷ nodes) = rw (e, e', case_nodes) refl in
    (
      report_node n (c ∷ l) (node ∷ nodes),
      ap (with_cases n (c ∷ l)) both,
      rw (f, load_cases) (f' (some n) (c ∷ [])),
      (a, (g, g')),
    )

nodes_back :
    (times : Times) (l : List TestSuite) (known : List TestSuite)
    → IsExact times
    → ShowsAttribute times
    → All IsReport l
    → All IsNamed l
    → (nodes : List SuiteNode) × (dump times l ≡ ok nodes)
      × All IsReadable nodes
      × (load times (map reread nodes) known ≡ (ok tt, known ++ l))
unfolding dump load
nodes_back times [] known exact shows h k = ([], refl, tt, rw (append-nil known) refl)
nodes_back times (s ∷ l) known exact shows (((n, e), (c, k, f, p)), h) ((a, m), q) =
    let same : record { name = some n; test_cases = some (c ∷ k) } ≡ s = rw (e, f) refl in
    let (node, w, b, g) =
      suite_back times exact n c k p shows (subst IsAttributeOf e a) (subst IsNamedCases f m) in
    let (nodes, w', g', b') = nodes_back times l (known ++ s ∷ []) exact shows h q in
    let written = ap (suite_node times) (sym same) ∙ w in
    let read = b ∙ ap ok same in
    (
      node ∷ nodes,
      rw (written, w', dump) refl,
      (g, g'),
      rw (read, load) (b' ∙ ap (λ x. (ok tt, x)) (append_assoc known (s ∷ []) l)),
    )

-- A report whose suites have a name and test cases, and whose cases have a name, a time, clean messages
-- that are not empty, and not both a failure and a reason why they were skipped; its names, its logs
-- and its times as they are shown have only characters of XML from the space on. If a time that is
-- shown is read as it was, and the parser of XML gives back the nodes that were written where their
-- attributes have only such characters and their texts only characters of XML that are no returns, then
-- what `dump` writes is parsed, and `load` reads from it what was written.
pub load-dump :
    (times : Times) (parse : List SuiteNode → Option (List SuiteNode)) (l known : List TestSuite)
    → IsExact times
    → ShowsAttribute times
    → ((written : List SuiteNode)
        → All IsReadable written
        → parse written ≡ some (map reread written))
    → All IsReport l
    → All IsNamed l
    → (nodes : List SuiteNode) × (read : List SuiteNode) × (dump times l ≡ ok nodes)
      × (parse nodes ≡ some read)
      × (load times read known ≡ (ok tt, known ++ l))
load-dump times parse l known exact shows parses h k =
    let (nodes, e, g, f) = nodes_back times l known exact shows h k in
    (nodes, map reread nodes, e, parses nodes g, f)
