-- ===== src/Suite/Counts.antt =====
-- The numbers that the status of HSS_rtc shows: the counting properties of `TestSuite`.
use st_tools.Prelude.{
  ℕ, suc, ◌+◌, ◌≡◌, refl, arith, Bool, true, false, ◌&&◌, List, [], ◌∷◌, length, All, if◌then◌else◌,
}
use st_tools.Suite.{TestCase, TestSuite, Status, not_executed, running, is_optional}
use st_tools.Suite.Progress.{IsOver, is_over}

abbrev pub count_if : (TestCase → Bool) → List TestCase → ℕ
count_if f [] = 0
count_if f (t ∷ l) = if f t then suc (count_if f l) else count_if f l

unfoldable pub nof_tcs : TestSuite → ℕ
nof_tcs s = length s.cases

unfoldable pub nof_mandatory_tcs : TestSuite → ℕ
nof_mandatory_tcs s = count_if (λ t. t.is_mandatory) s.cases

unfoldable pub nof_optional_tcs : TestSuite → ℕ
nof_optional_tcs s = count_if is_optional s.cases

-- Neither `not executed` nor `running`.
abbrev pub was_executed : Status → Bool
was_executed not_executed = false
was_executed running = false
was_executed s = true

unfoldable pub nof_mandatory_tcs_exec : TestSuite → ℕ
nof_mandatory_tcs_exec s = count_if (λ t. t.is_mandatory && was_executed t.status) s.cases

unfoldable pub nof_optional_tcs_exec : TestSuite → ℕ
nof_optional_tcs_exec s = count_if (λ t. is_optional t && was_executed t.status) s.cases

count_if-sum :
    (l : List TestCase) → count_if (λ t. t.is_mandatory) l + count_if is_optional l ≡ length l
count_if-sum [] = refl
count_if-sum (t ∷ l) = ground (arith, count_if-sum l)

over-was_executed : (s : Status) → is_over s ≡ true → was_executed s ≡ true
over-was_executed s h = ground arith

count_if-over :
    (f : TestCase → Bool) (l : List TestCase)
    → All IsOver l
    → count_if (λ t. f t && was_executed t.status) l ≡ count_if f l
count_if-over f [] h = refl
count_if-over f (t ∷ l) h = ground (arith, count_if-over f l h.1, over-was_executed t.status h.0)

-- When all test cases of a suite are over, the executed ones are as many as there are of each kind,
-- and together all of the suite.
pub counts_at_end :
    (s : TestSuite)
    → All IsOver s.cases
    → (nof_mandatory_tcs_exec s ≡ nof_mandatory_tcs s)
      × (nof_optional_tcs_exec s ≡ nof_optional_tcs s)
      × (nof_mandatory_tcs_exec s + nof_optional_tcs_exec s ≡ nof_tcs s)
unfolding nof_mandatory_tcs nof_optional_tcs nof_tcs nof_mandatory_tcs_exec nof_optional_tcs_exec
counts_at_end s h =
    let mandatory = count_if-over (λ t. t.is_mandatory) s.cases h in
    let optional = count_if-over is_optional s.cases h in
    (mandatory, optional, omega (arith, mandatory, optional, count_if-sum s.cases))
