-- ===== src/Suite/Ends.antt =====
-- The execution of a suite ends.
use mathlib.Core.Path.{subst}
use st_tools.Prelude.{
  ℕ, zero, suc, ◌+◌, ◌-◌, ◌≤◌, ◌≡◌, ◌⊎◌, inl, inr, refl, sym, arith, Bool, true, false, Option,
  none, some, List, [], ◌∷◌, if◌then◌else◌, get_elem?, All,
}
use st_tools.Prelude.Int.{above}
use st_tools.Suite.{TestCase, step_to, next_text_case, set_execution_status}
use st_tools.Suite.Execution.{
  Rtc, Order, quit, continue_quit, force_quit, resume, set_status, obey, obey_all, Round, serve,
  one_case, one_round, run,
}
use st_tools.Suite.Progress.{
  IsOver, IsSplit, executions, IsSplit-Spot, IsSplit-end, set_all-IsSplit, executions-set_all,
}
use st_tools.Suite.Run.{Ahead, weaken-Ahead, one_case-Ahead}

obey-Ahead : (m : ℕ) (o : Order) (s : Rtc) → Ahead m s → Ahead m (obey o s)
unfolding obey set_execution_status
obey-Ahead m quit s (a, b, c, d) = (a, b, c, refl)
obey-Ahead m continue_quit s (a, b, c, d) = (a, b, c, refl)
obey-Ahead m force_quit s (a, b, c, d) = (a, b, c, refl)
obey-Ahead m resume s (a, b, c, d) = (a, b, c, refl)
obey-Ahead m (set_status f) s (a, b, c, d) = (
  set_all-IsSplit f s.suite.next s.suite.cases a,
  omega (arith, executions-set_all f s.suite.next s.suite.cases, b),
  c,
  d,
)

obey_all-Ahead : (m : ℕ) (l : List Order) (s : Rtc) → Ahead m s → Ahead m (obey_all l s)
unfolding obey_all
obey_all-Ahead m [] s h = h
obey_all-Ahead m (o ∷ l) s h = obey_all-Ahead m l (obey o s) (obey-Ahead m o s h)

-- The run is over by an order or an error, or since all cases are over.
abbrev pub IsDone : Rtc → Type 0
IsDone s = (s.exit_rtc ≡ true) ⊎ All IsOver s.suite.cases

-- A round ends the run, or one execution less is ahead.
abbrev Advances : ℕ → Bool × Rtc → Type 0
Advances m (ended, s) =
    ((ended ≡ true) × IsDone s) ⊎ ((ended ≡ false) × ((n : ℕ) × (m ≡ suc n) × Ahead n s))

serve-Advances :
    (o : Option TestCase) (m : ℕ) (r : Round) (s : Rtc)
    → get_elem? s.suite.cases s.suite.next ≡ o
    → Ahead m s
    → Advances m (serve r s (step_to o s.suite))
serve-Advances none m r s e (a, b, c, d) =
    inl (refl, inr (IsSplit-end s.suite.next s.suite.cases a e))
serve-Advances (some t) m r s e (a, b, c, d) =
    let (spot, count, fine) = IsSplit-Spot s.suite.next s.suite.cases t a e in
    let rest = executions (suc s.suite.next) s.suite.cases in
    let s1 = record s { suite = record s.suite { next = suc s.suite.next } } in
    let done =
      one_case-Ahead t.nof_retries s.suite.next rest r r.refused s1 fine (refl, spot, refl, c, d) in
    let t1 = one_case s.suite.next r r.refused s1 in
    inr (
      refl,
      (
        m - 1,
        omega (arith, b, count),
        weaken-Ahead (above t.nof_retries + rest) (m - 1) t1 (omega (arith, b, count)) done,
      ),
    )

exit-Advances :
    (b : Bool) (m : ℕ) (r : Round) (s : Rtc)
    → s.exit_rtc ≡ b
    → Ahead m s
    → Advances m (if b then (true, s) else serve r s (next_text_case s.suite))
unfolding next_text_case
exit-Advances true m r s e h = inl (refl, inl e)
exit-Advances false m r s e h = serve-Advances (get_elem? s.suite.cases s.suite.next) m r s refl h

one_round-Advances : (m : ℕ) (r : Round) (s : Rtc) → Ahead m s → Advances m (one_round r s)
unfolding one_round
one_round-Advances m r s h =
    let s' = obey_all r.before s in
    let k = obey_all-Ahead m r.before s h in
    subst
      (λ b. Advances m (
        if b
        then (false, s')
        else if s'.exit_rtc
        then (true, s')
        else serve r s' (next_text_case s'.suite)))
      (sym k.3) (exit-Advances s'.exit_rtc m r s' refl k)

-- The rest of a run, behind its first round.
run_rest :
    (m : ℕ) (x : Bool × Rtc) (rest : Bool × Rtc)
    → Advances m x
    → ((n : ℕ) → m ≡ suc n → Ahead n x.1 → (rest.0 ≡ true) × IsDone rest.1)
    → let y = if x.0 then (true, x.1) else rest in (y.0 ≡ true) × IsDone y.1
run_rest m (true, s) rest (inl (e, d)) k = (refl, d)
run_rest m (false, s) rest (inl (e, d)) k = ground (arith, e)
run_rest m (true, s) rest (inr (e, d)) k = ground (arith, e)
run_rest m (false, s) rest (inr (e, (n, f, a))) k = k n f a

-- Without the bus, and not paused, a suite whose first cases are over and whose other ones are not
-- executed and have no negative number of retries comes to an end: after one round more than there
-- are such cases and retries, whatever the rounds bring. Then an order or an error has ended the run,
-- or all cases are over.
pub run-ends :
    (m : ℕ) (rounds : ℕ → Round) (s : Rtc)
    → IsSplit s.suite.next s.suite.cases
    → executions s.suite.next s.suite.cases ≤ m
    → s.dbus ≡ false
    → s.paused ≡ false
    → let (ended, t) = run (suc m) rounds s in
      (ended ≡ true) × ((t.exit_rtc ≡ true) ⊎ All IsOver t.suite.cases)
unfolding run
run-ends zero rounds s a b c d =
    let x = one_round (rounds 0) s in
    run_rest 0 x (run 0 (λ i. rounds (suc i)) x.1) (one_round-Advances 0 (rounds 0) s (a, b, c, d))
      (λ n f h. absurd (omega (arith, f)))
run-ends (suc m) rounds s a b c d =
    let x = one_round (rounds 0) s in
    run_rest (suc m) x (run (suc m) (λ i. rounds (suc i)) x.1)
      (one_round-Advances (suc m) (rounds 0) s (a, b, c, d))
      (λ n f h. run-ends m (λ i. rounds (suc i)) x.1 h.0 (omega (arith, f, h.1)) h.2 h.3)
