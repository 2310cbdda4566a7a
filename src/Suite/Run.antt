-- ===== src/Suite/Run.antt =====
-- A round of the suite, and the end of its execution.
use mathlib.Core.Path.{subst}
use st_tools.Prelude.{
  ℕ, zero, suc, ◌+◌, ◌≤◌, ◌≡◌, refl, sym, ap, ◌∙◌, arith, String, Bool, true, false, Option, none,
  some, List, [], ◌∷◌, if◌then◌else◌, get_elem?,
}
use st_tools.Prelude.Int.{ℤ, pos, negsuc, above, below, ◌-ℤ◌}
use st_tools.Suite.{
  running, skipped, TestCase, TestSuite, update_status, shall_repeat, clone, update_at, insert_at,
  forgive, repeat_test_case, set_execution_status, current, is_zero, repeat_at,
}
use st_tools.Suite.Execution.{
  Rtc, Order, quit, continue_quit, force_quit, resume, set_status, obey, obey_all, Round,
  report_failures, end_case, finish_case, change_suite, change_case, case_at, repeat_if, announce,
  conclude, blame, execute, one_case,
}
use st_tools.Suite.Progress.{
  IsFresh, IsSplit, executions, Spot, Spot-IsSplit, update_at-Spot, executions-update_at, mark-Spot,
  executions-mark, set_all-Spot, executions-set_all, insert_at-IsSplit, executions-insert_at,
}
use st_tools.Suite.Cases.{
  New, Busy, Over, start_case, skip_case, report_failures-Busy, end_case-Over, finish_case-Over,
}

-- The suite while the case at `n` is executed: what may still be executed after it, and no pause.
abbrev pub Here : (TestCase → Type 0) → ℕ → ℕ → Rtc → Type 0
Here P n m s =
    (s.suite.next ≡ suc n)
    × Spot P n s.suite.cases
    × (executions (suc n) s.suite.cases ≡ m)
    × (s.dbus ≡ false)
    × (s.paused ≡ false)

change_case-Here :
    (P Q : TestCase → Type 0) (f : TestCase → TestCase) (n m : ℕ) (s : Rtc)
    → ((t : TestCase) → P t → Q (f t))
    → Here P n m s
    → Here Q n m (change_case n f s)
change_case-Here P Q f n m s k (a, b, c, d, p) =
    (a, update_at-Spot P Q f n s.suite.cases k b, executions-update_at f n s.suite.cases ∙ c, d, p)

blame-Here :
    (k : ℤ) (b : Bool) (n m : ℕ) (s : Rtc) → Here (Busy k) n m s → Here (Busy k) n m (blame b s)
unfolding set_execution_status
blame-Here k false n m s h = h
blame-Here k true n m s (a, b, c, d, p) = (
  a,
  mark-Spot (Busy k) true (current s.suite) n s.suite.cases (λ t h. h) b,
  executions-mark true (current s.suite) (suc n) s.suite.cases ∙ c,
  d,
  p,
)

mark-Busy :
    (k : ℤ) (b : Bool) (t : TestCase) (c : Bool)
    → Busy k t
    → Busy k (if c then record t { report_not_valid = b } else t)
mark-Busy k b t true h = h
mark-Busy k b t false h = h

obey-Here :
    (k : ℤ) (o : Order) (n m : ℕ) (s : Rtc) → Here (Busy k) n m s → Here (Busy k) n m (obey o s)
unfolding obey
obey-Here k quit n m s (a, b, c, d, p) = (a, b, c, d, refl)
obey-Here k continue_quit n m s (a, b, c, d, p) = (a, b, c, d, refl)
obey-Here k force_quit n m s (a, b, c, d, p) = (a, b, c, d, refl)
obey-Here k resume n m s (a, b, c, d, p) = (a, b, c, d, refl)
obey-Here k (set_status f) n m s (a, b, c, d, p) = (
  a,
  set_all-Spot (Busy k) f n s.suite.cases (mark-Busy k f) b,
  executions-set_all f (suc n) s.suite.cases ∙ c,
  d,
  p,
)

obey_all-Here :
    (k : ℤ) (l : List Order) (n m : ℕ) (s : Rtc)
    → Here (Busy k) n m s
    → Here (Busy k) n m (obey_all l s)
unfolding obey_all
obey_all-Here k [] n m s h = h
obey_all-Here k (o ∷ l) n m s h = obey_all-Here k l n m (obey o s) (obey-Here k o n m s h)

execute-Here :
    (k : ℤ) (n m : ℕ) (r : Round) (s : Rtc) → Here (New k) n m s → Here (Over k) n m (execute n r s)
unfolding execute
execute-Here k n m r s h =
    let s0 = record s { exit_rtc = false; exit_test_case = false } in
    let s1 = change_case n (update_status running r.begins "" false) s0 in
    let s2 = change_case n (report_failures r.verdicts) s1 in
    let s3 = obey_all r.during (blame r.is_faulty s2) in
    change_case-Here (Over k) (Over k) (finish_case r.stops) n m (conclude n r s3)
      (finish_case-Over k r.stops)
      (change_case-Here (Busy k) (Over k) (end_case r.ending r.stops) n m s3
        (end_case-Over k r.ending r.stops)
        (obey_all-Here k r.during n m (blame r.is_faulty s2) (
          blame-Here k r.is_faulty n m s2 (
            change_case-Here (Busy k) (Busy k) (report_failures r.verdicts) n m s1
              (report_failures-Busy k r.verdicts)
              (change_case-Here (New k) (Busy k) (update_status running r.begins "" false) n m s0
                (start_case k r.begins) h)))))

-- What a case leaves for the next round.
abbrev pub Ahead : ℕ → Rtc → Type 0
Ahead m s =
    IsSplit s.suite.next s.suite.cases
    × (executions s.suite.next s.suite.cases ≤ m)
    × (s.dbus ≡ false)
    × (s.paused ≡ false)

Here-Ahead : (k : ℤ) (n m : ℕ) (s : Rtc) → Here (Over k) n m s → Ahead m s
Here-Ahead k n m s (a, b, c, d, p) =
    rw a (Spot-IsSplit (Over k) n s.suite.cases (λ t h. h.0) b, omega (arith, c), d, p)

pub weaken-Ahead : (m m' : ℕ) (s : Rtc) → m ≤ m' → Ahead m s → Ahead m' s
weaken-Ahead m m' s h (a, b, c, d) = (a, omega (arith, b, h), c, d)

Spot-get_elem? :
    (P : TestCase → Type 0) (n : ℕ) (l : List TestCase) (t : TestCase)
    → Spot P n l
    → get_elem? l n ≡ some t
    → P t
Spot-get_elem? P zero [] t h e = absurd h
Spot-get_elem? P (suc n) [] t h e = absurd h
Spot-get_elem? P zero (u ∷ l) t h e = let same : u ≡ t = cc in subst P same h.0
Spot-get_elem? P (suc n) (u ∷ l) t h e = Spot-get_elem? P n l t h.1 e

one_retry_less :
    (k : ℤ)
    → below k ≡ 0
    → is_zero k ≡ false
    → (suc (above (k -ℤ pos 1)) ≡ above k) × (below (k -ℤ pos 1) ≡ 0)
unfolding ◌-ℤ◌
one_retry_less (pos zero) h e = ground (arith, e)
one_retry_less (pos (suc n)) h e = ground arith
one_retry_less (negsuc n) h e = ground (arith, h)

clone-IsFresh :
    (k : ℤ) (t : TestCase) → below (k -ℤ pos 1) ≡ 0 → t.nof_retries ≡ k → IsFresh (clone t)
unfolding clone
clone-IsFresh k t h e = (refl, ap (λ x. below (x -ℤ pos 1)) e ∙ h)

repeated :
    (n : ℕ) (t : TestCase) (u : TestSuite)
    → u.next ≡ suc n
    → get_elem? u.cases n ≡ some t
    → repeat_test_case u
      ≡ record u { cases = insert_at (suc n) (clone t) (update_at n forgive u.cases) }
unfolding repeat_test_case
repeated n t u a e =
    let here : current u ≡ n = rw a refl in
    ap (λ i. repeat_at i (get_elem? u.cases i) u) here
    ∙ ap (λ o. repeat_at n o u) e
    ∙ ap (λ i. record u { cases = insert_at i (clone t) (update_at n forgive u.cases) }) a

clone-nof_retries : (t : TestCase) → (clone t).nof_retries ≡ t.nof_retries -ℤ pos 1
unfolding clone
clone-nof_retries t = refl

-- A case that is over is repeated at most as often as its file says.
repeat-Ahead :
    (k : ℤ) (n m : ℕ) (t : TestCase) (s : Rtc)
    → below k ≡ 0
    → is_zero k ≡ false
    → get_elem? s.suite.cases n ≡ some t
    → Here (Over k) n m s
    → Ahead (above k + m) (change_suite repeat_test_case s)
repeat-Ahead k n m t s nn nz e (a, b, c, d, p) =
    let (less, fine) = one_retry_less k nn nz in
    let own = (Spot-get_elem? (Over k) n s.suite.cases t b e).1 in
    let l = update_at n forgive s.suite.cases in
    let split : IsSplit (suc n) l =
      Spot-IsSplit (Over k) n l (λ u h. h.0)
        (update_at-Spot (Over k) (Over k) forgive n s.suite.cases (λ u h. h) b) in
    let new = insert_at-IsSplit (suc n) (clone t) l (clone-IsFresh k t fine own) split in
    let count = executions-insert_at (suc n) (clone t) l split in
    rw (repeated n t s.suite a e, a)
      (
        new,
        omega (
          arith,
          count,
          executions-update_at forgive n s.suite.cases,
          c,
          less,
          ap (λ x. above (x -ℤ pos 1)) own,
          ap above (clone-nof_retries t),
        ),
        d,
        p,
      )

repeat_test-Ahead :
    (b : Bool) (k : ℤ) (n m : ℕ) (t : TestCase) (s : Rtc)
    → below k ≡ 0
    → (b ≡ true → is_zero k ≡ false)
    → get_elem? s.suite.cases n ≡ some t
    → Here (Over k) n m s
    → Ahead (above k + m) (if b then change_suite repeat_test_case s else s)
repeat_test-Ahead true k n m t s nn nz e h = repeat-Ahead k n m t s nn (nz refl) e h
repeat_test-Ahead false k n m t s nn nz e h =
    weaken-Ahead m (above k + m) s (omega arith) (Here-Ahead k n m s h)

shall_repeat-is_zero :
    (k : ℤ) (t : TestCase) → t.nof_retries ≡ k → shall_repeat t ≡ true → is_zero k ≡ false
unfolding shall_repeat
shall_repeat-is_zero k t e h = ground (arith, e, h)

repeat_if-Ahead :
    (o : Option TestCase) (k : ℤ) (n m : ℕ) (s : Rtc)
    → below k ≡ 0
    → get_elem? s.suite.cases n ≡ o
    → Here (Over k) n m s
    → Ahead (above k + m) (repeat_if o s)
repeat_if-Ahead none k n m s nn e h =
    weaken-Ahead m (above k + m) s (omega arith) (Here-Ahead k n m s h)
repeat_if-Ahead (some t) k n m s nn e h =
    repeat_test-Ahead (shall_repeat t) k n m t s nn
      (shall_repeat-is_zero k t (Spot-get_elem? (Over k) n s.suite.cases t h.1 e).1) e h

-- Without the bus there is no signal.
announce_quiet : (s : Rtc) → s.dbus ≡ false → announce s ≡ s
announce_quiet s h = simp h refl

announce-Ahead : (m : ℕ) (s : Rtc) → Ahead m s → Ahead m (announce s)
announce-Ahead m s h = subst (Ahead m) (sym (announce_quiet s h.2)) h

pub one_case-Ahead :
    (k : ℤ) (n m : ℕ) (r : Round) (o : Option String) (s : Rtc)
    → below k ≡ 0
    → Here (New k) n m s
    → Ahead (above k + m) (one_case n r o s)
unfolding one_case
one_case-Ahead k n m r (some reason) s nn h =
    let s0 = record s { exit_rtc = false; exit_test_case = false } in
    let s1 = change_case n (update_status skipped r.begins reason false) s0 in
    weaken-Ahead m (above k + m) s1 (omega arith) (
      Here-Ahead k n m s1 (
        change_case-Here (New k) (Over k) (update_status skipped r.begins reason false) n m s0
          (skip_case k r.begins reason) h))
one_case-Ahead k n m r none s nn h =
    let s' = execute n r s in
    announce-Ahead (above k + m) (repeat_if (case_at n s') s')
      (repeat_if-Ahead (case_at n s') k n m s' nn refl (execute-Here k n m r s h))
