-- ===== src/Junit/Suites.antt =====
-- A report as a map from the name of a suite to its test cases.
use st_tools.Prelude.{
  ◌≡◌, refl, arith, String, Option, none, some, List, [], ◌∷◌, ◌++◌, get_or, is_some, map_option,
  eq_iff, ◌==◌, if◌then◌else◌, Option-cases, inl, inr,
}
use st_tools.Junit.{TestCase, TestSuite, has_name, add_case, add_to_suites, add_testcase}

-- The test cases of the first suite with this name.
pub cases_in : String → List TestSuite → Option (List TestCase)
cases_in n [] = none
cases_in n (s ∷ l) = if has_name n s then some (get_or s.test_cases []) else cases_in n l

add_to_suites-found :
    (c : TestCase) (name : String) (l : List TestSuite)
    → (add_to_suites c name l).0 ≡ is_some (cases_in name l)
unfolding add_to_suites cases_in
add_to_suites-found c name [] = refl
add_to_suites-found c name (s ∷ l) = ground (arith, add_to_suites-found c name l)

add_to_suites-cases_in :
    (c : TestCase) (name n : String) (l : List TestSuite)
    → cases_in n (add_to_suites c name l).1
      ≡ (if name == n then map_option (λ x. x ++ c ∷ []) (cases_in n l) else cases_in n l)
unfolding add_to_suites cases_in add_case
add_to_suites-cases_in c name n [] = ground arith
add_to_suites-cases_in c name n (s ∷ l) = elim (Option-cases s.name) [
  | inl e ↦ ground (arith, e, add_to_suites-cases_in c name n l)
  | inr (m, e) ↦
      ground (arith, e, eq_iff m name, eq_iff m n, eq_iff name n, add_to_suites-cases_in c name n l)
]

cases_in-append :
    (n : String) (l : List TestSuite) (s : TestSuite)
    → cases_in n (l ++ s ∷ []) ≡ (
        if is_some (cases_in n l)
        then cases_in n l
        else if has_name n s
        then some (get_or s.test_cases [])
        else none)
unfolding cases_in
cases_in-append n [] s = refl
cases_in-append n (t ∷ l) s = ground (arith, cases_in-append n l s)

-- A test case is added at the end of the suite of that name, or as the first of a new suite; what
-- other names stand for stays as it is.
add_testcase-cases_in :
    (c : TestCase) (name n : String) (l : List TestSuite)
    → cases_in n (add_testcase c name l)
      ≡ (if name == n then some (get_or (cases_in n l) [] ++ c ∷ []) else cases_in n l)
unfolding add_testcase
add_testcase-cases_in c name n l =
    let (found, l') = add_to_suites c name l in
    ground (
      arith,
      add_to_suites-found c name l,
      add_to_suites-cases_in c name n l,
      cases_in-append n l' (record { name = some name; test_cases = some (c ∷ []) }),
      eq_iff name n,
    )
