-- ===== src/Junit.antt =====
-- HSS_rtc/HSS_rtc_lib/components/junit.py: the file that reports test cases in the format of JUnit.
pub mod Nodes
pub mod Roundtrip
mod Readable
pub mod Reload
pub mod Suites
pub mod Clean
mod Tests
use Prim.Native.Char.{Char, code}
use st_tools.Prelude.{
  ℕ, zero, suc, ◌+◌, String, Bool, true, false, not, ◌&&◌, ◌||◌, Option, none, some, List, [], ◌∷◌,
  ◌++◌, length, get_or, is_some, leb, ◌==◌, if◌then◌else◌,
}

-- `time` counts the microseconds that "%f" shows.
pub record TestCase : Type 0 where
  pub name : Option String
  pub time : Option ℕ
  pub class_name : Option String
  pub log : Option String
  pub skipped_message : Option String
  pub error_message : Option String
  pub failure_message : Option String

pub record TestSuite : Type 0 where
  pub name : Option String
  pub test_cases : Option (List TestCase)

-- `_clean_illegal_xml_chars`: no character of these ranges stays.
abbrev pub illegal_ranges : List (ℕ × ℕ)
illegal_ranges =
    (0x00, 0x08)
    ∷ (0x0B, 0x1F)
    ∷ (0x7F, 0x84)
    ∷ (0x86, 0x9F)
    ∷ (0xD800, 0xDFFF)
    ∷ (0xFDD0, 0xFDDF)
    ∷ (0xFFFE, 0xFFFF)
    ∷ (0x1FFFE, 0x1FFFF)
    ∷ (0x2FFFE, 0x2FFFF)
    ∷ (0x3FFFE, 0x3FFFF)
    ∷ (0x4FFFE, 0x4FFFF)
    ∷ (0x5FFFE, 0x5FFFF)
    ∷ (0x6FFFE, 0x6FFFF)
    ∷ (0x7FFFE, 0x7FFFF)
    ∷ (0x8FFFE, 0x8FFFF)
    ∷ (0x9FFFE, 0x9FFFF)
    ∷ (0xAFFFE, 0xAFFFF)
    ∷ (0xBFFFE, 0xBFFFF)
    ∷ (0xCFFFE, 0xCFFFF)
    ∷ (0xDFFFE, 0xDFFFF)
    ∷ (0xEFFFE, 0xEFFFF)
    ∷ (0xFFFFE, 0xFFFFF)
    ∷ (0x10FFFE, 0x10FFFF)
    ∷ []

unfoldable pub is_illegal : List (ℕ × ℕ) → ℕ → Bool
is_illegal [] n = false
is_illegal ((low, high) ∷ l) n = (leb low n && leb n high) || is_illegal l n

unfoldable pub clean : String → String
unfolding is_illegal
clean String.[] = ""
clean (String.◌∷◌ c s) =
    let rest = clean s in if is_illegal illegal_ranges (code c) then rest else String.◌∷◌ c rest

unfoldable pub set_failure : String → TestCase → TestCase
unfolding clean
set_failure message c = record c { failure_message = some (clean message) }

unfoldable pub set_skipped : String → TestCase → TestCase
unfolding clean
set_skipped message c = record c { skipped_message = some (clean message) }

unfoldable pub set_error : String → TestCase → TestCase
unfolding clean
set_error message c = record c { error_message = some (clean message) }

abbrev pub is_failure : TestCase → Bool
is_failure c = is_some c.failure_message

abbrev pub is_skipped : TestCase → Bool
is_skipped c = is_some c.skipped_message

abbrev pub is_error : TestCase → Bool
is_error c = is_some c.error_message

abbrev pub new_suite : Option String → TestSuite
new_suite name = record { name = name; test_cases = none }

-- `TestSuite.add_testcase`
unfoldable pub add_case : TestCase → TestSuite → TestSuite
add_case c s = record s { test_cases = some (get_or s.test_cases [] ++ c ∷ []) }

abbrev pub has_name : String → TestSuite → Bool
has_name name s = elim s.name [ none ↦ false | some n ↦ n == name ]

-- The loop of `add_testcase` of the file, and whether it found the suite.
unfoldable pub add_to_suites : TestCase → String → List TestSuite → Bool × List TestSuite
unfolding add_case
add_to_suites c name [] = (false, [])
add_to_suites c name (s ∷ l) =
    let (found, l') = add_to_suites c name l in
    if has_name name s then (true, add_case c s ∷ l') else (found, s ∷ l')

unfoldable pub add_testcase : TestCase → String → List TestSuite → List TestSuite
unfolding add_to_suites
add_testcase c name l =
    let (found, l') = add_to_suites c name l in
    if found then l' else l' ++ record { name = some name; test_cases = some (c ∷ []) } ∷ []

abbrev pub count_if : (TestCase → Bool) → List TestCase → ℕ
count_if f [] = 0
count_if f (c ∷ l) = if f c then suc (count_if f l) else count_if f l

-- The counting methods of a suite with cases; that of the errors counts failures.
unfoldable pub get_num_failures : List TestCase → ℕ
get_num_failures l = count_if is_failure l

unfoldable pub get_num_errors : List TestCase → ℕ
get_num_errors l = count_if is_failure l

unfoldable pub get_num_skipped : List TestCase → ℕ
get_num_skipped l = count_if is_skipped l

unfoldable pub get_time : List TestCase → ℕ
get_time [] = 0
get_time (c ∷ l) = get_or c.time 0 + get_time l
