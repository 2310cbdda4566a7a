-- ===== src/Phases/Verdict.antt =====
-- What a failure leaves in the test case.
use st_tools.Prelude.{
  ℕ, zero, suc, String, ◌≡◌, refl, ap, ◌∙◌, Bool, true, false, some, List, [], ◌∷◌, ◌++◌,
  if◌then◌else◌, get_elem?, last?,
}
use st_tools.Suite.{TestCase, update_at, set_execution_status, current}
use st_tools.Suite.Execution.{Rtc, report_failures, case_at, blame}
use st_tools.Phases.{RtcData, update_verdict}

pub last-snoc : {A : Type 0} (l : List A) (x : A) → last? (l ++ x ∷ []) ≡ some x
last-snoc [] x = refl
last-snoc (y ∷ []) x = refl
last-snoc (y ∷ z ∷ l) x = last-snoc (z ∷ l) x

changed :
    (n : ℕ) (f : TestCase → TestCase) (l : List TestCase) (t : TestCase)
    → get_elem? (update_at n f l) n ≡ some t
    → (t0 : TestCase) × (t ≡ f t0)
unfolding update_at
changed n f [] t e = cc
changed zero f (u ∷ l) t e = (u, cc)
changed (suc n) f (u ∷ l) t e = changed n f l t e

marked :
    (m n : ℕ) (l : List TestCase) (t : TestCase)
    → get_elem? (update_at m (λ u. record u { report_not_valid = true }) l) n ≡ some t
    → (t0 : TestCase) × (get_elem? l n ≡ some t0) × (t.failure_messages ≡ t0.failure_messages)
unfolding update_at
marked m n [] t e = cc
marked zero zero (u ∷ l) t e = (u, refl, cc)
marked zero (suc n) (u ∷ l) t e = (t, e, refl)
marked (suc m) zero (u ∷ l) t e = (t, e, refl)
marked (suc m) (suc n) (u ∷ l) t e = marked m n l t e

pub blame-marked :
    (g : Bool) (n : ℕ) (r : Rtc) (t : TestCase)
    → case_at n (blame g r) ≡ some t
    → (t0 : TestCase) × (case_at n r ≡ some t0) × (t.failure_messages ≡ t0.failure_messages)
unfolding set_execution_status
blame-marked true n r t e = marked (current r.suite) n r.suite.cases t e
blame-marked false n r t e = (t, e, refl)

update_verdict-last :
    (message : String) (again : Bool) (d : RtcData) (t : TestCase)
    → case_at d.index (update_verdict message again d).rtc ≡ some t
    → last? t.failure_messages ≡ some message
unfolding update_verdict report_failures
update_verdict-last message again d t e =
    let (t0, k) = changed d.index (report_failures ((message, again) ∷ [])) d.rtc.suite.cases t e in
    ap (λ u. last? u.failure_messages) k ∙ last-snoc t0.failure_messages message

-- Whether the verdict was touched.
abbrev pub judged : Bool → String → Bool → RtcData → RtcData
judged b message again d = if b then update_verdict message again d else d

pub judged-last :
    (b : Bool) (message : String) (again : Bool) (d : RtcData) (t : TestCase)
    → b ≡ true
    → case_at (judged b message again d).index (judged b message again d).rtc ≡ some t
    → last? t.failure_messages ≡ some message
unfolding update_verdict
judged-last true message again d t on e = update_verdict-last message again d t e
judged-last false message again d t on e = cc
