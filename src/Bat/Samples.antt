-- ===== src/Bat/Samples.antt =====
-- Any number of samples of the statistics of a BAT: what its open register holds afterwards.
use st_tools.Prelude.{
  ◌≡◌, refl, ap, sym, ◌∙◌, Bool, true, false, Option, none, some, List, [], ◌∷◌, String,
  if◌then◌else◌,
}
use st_tools.Prelude.Int.{ℤ, ◌+ℤ◌, ◌-ℤ◌, above, below, int_laws}
use st_tools.Prelude.Dict.{keys}
use st_tools.Prelude.Exec.{Result, ok}
use st_tools.Bat.{TrafficPhase, Bat, error_db_registering, error_db_read_register_counters}
use st_tools.Bat.Statistics.{
  Stats, Line, Sampler, Answer, is_empty, empty, read_template, read_lines, with_lines, with_answer,
  get_current_stats, count_scripts, first_stats, with_totals, update_errors_info, check_result,
}
use st_tools.Bat.Counts.{
  Counting, executed_in, count_scripts-executed, read_lines-keys, filled, with_totals-Counting,
}

-- What update_errors_info does after the statistics are read.
abbrev after_reading : Sampler → Sampler
after_reading s' =
    (if is_empty s'.current_stats
      then (ok tt, s')
      else (let s'' = first_stats s' in
          with_totals
            (count_scripts s''.bat.traffic_phase s''.current_stats s''.last_stats
              (keys s''.current_stats.scripts))
            s'')).1

if_false {ℓ κ} :
    {A : Type ℓ} (P : A → Type κ) (b : Bool) (x y : A) → b ≡ false → P y → P (if b then x else y)
if_false P true x y e h = cc
if_false P false x y e h = h

same_bat : (b : Bat) (q : TrafficPhase) → q ≡ b.traffic_phase → record b { traffic_phase = q } ≡ b
same_bat b q e = rw e refl

module _ {p : TrafficPhase} {k : String} {l : List String} {c : ℤ} where
  -- Nothing is read, and nothing is counted.
  nothing_read :
      (st : Stats) (s : Sampler)
      → Counting p k l c s
      → keys st.scripts ≡ k ∷ l
      → Counting p k l c (record s { error_template = st; current_stats = empty })
  nothing_read st s h e = record {
    opened = h.opened;
    has_file = h.has_file;
    known = e;
    begun = h.begun;
    balance = h.balance;
  }

  counted :
      (s : Sampler)
      → Counting p k l c s
      → s.bat.traffic_phase ≡ p
      → keys s.current_stats.scripts ≡ k ∷ l
      → Counting p k l c (after_reading s)
  counted s h e f =
      if_false (λ (r : Result (Unit {0}) × Sampler). Counting p k l c r.1)
        (is_empty s.current_stats) _ _ (filled s.current_stats k l f)
        (if_false
          (λ (s'' : Sampler).
            Counting p k l c
              (with_totals
                (count_scripts s''.bat.traffic_phase s''.current_stats s''.last_stats
                  (keys s''.current_stats.scripts))
                s'').1)
          (is_empty s.last_stats) _ _ h.begun
          (simp (e, f)
            (with_totals-Counting (count_scripts p s.current_stats s.last_stats (k ∷ l)) s h
              (count_scripts-executed p s.current_stats s.last_stats (k ∷ l))
              (filled s.current_stats k l f))))

  read :
      (r : Option TrafficPhase × Stats) (s : Sampler)
      → Counting p k l c s
      → s.bat.traffic_phase ≡ p
      → keys r.1.scripts ≡ k ∷ l
      → (with_lines r s).bat.traffic_phase ≡ p
      → Counting p k l c (after_reading (with_lines r s))
  read (none, st) s h e f g = nothing_read st s h f
  read (some q, st) s h e f g =
      counted (with_lines (some q, st) s)
        (record {
          opened = rw (same_bat s.bat q (g ∙ sym e)) h.opened;
          has_file = h.has_file;
          known = f;
          begun = h.begun;
          balance = rw (same_bat s.bat q (g ∙ sym e)) h.balance;
        })
        g f

  with_answer-Counting :
      (o : Option (List (Option Line))) (s : Sampler)
      → Counting p k l c s
      → s.bat.traffic_phase ≡ p
      → (with_answer o s).bat.traffic_phase ≡ p
      → Counting p k l c (after_reading (with_answer o s))
  with_answer-Counting none s h e g = nothing_read s.error_template s h h.known
  with_answer-Counting (some n) s h e g =
      read (read_lines n s.bat.traffic_phase s.error_template) s h e
        (read_lines-keys n s.bat.traffic_phase s.error_template ∙ h.known) g

  stats_of :
      (a : Answer) (s : Sampler)
      → Counting p k l c s
      → get_current_stats a s ≡ with_answer a.lines s
  unfolding get_current_stats
  stats_of a s h =
      simp (h.has_file, filled s.error_template k l h.known, get_current_stats, read_template) refl

  check_result-Counting :
      (a : Answer) (s : Sampler)
      → Counting p k l c s
      → s.bat.traffic_phase ≡ p
      → (get_current_stats a s).bat.traffic_phase ≡ p
      → Counting p k l c (check_result a s).1
  unfolding check_result
  check_result-Counting a s h e g = enabled (s.bat.enable s.bat.traffic_phase)
    where
      read_stats : Counting p k l c (after_reading (get_current_stats a s))
      read_stats =
          rw (stats_of a s h) (with_answer-Counting a.lines s h e (rw (← stats_of a s h) g))

      enabled : (b : Bool) → Counting p k l c (if b then update_errors_info a s else (ok tt, s)).1
      enabled true = read_stats
      enabled false = h

abbrev pub check_all : List Answer → Sampler → Sampler
check_all [] s = s
check_all (a ∷ l) s = check_all l (check_result a s).1

-- The BAT is in the phase before and after each reading.
abbrev pub StaysIn : TrafficPhase → List Answer → Sampler → Type 0
StaysIn p [] s = Unit
StaysIn p (a ∷ l) s =
    (s.bat.traffic_phase ≡ p)
    × ((get_current_stats a s).bat.traffic_phase ≡ p)
    × StaysIn p l (check_result a s).1

check_all-Counting :
    (p : TrafficPhase) (k : String) (l : List String) (c : ℤ) (qs : List Answer) (s : Sampler)
    → Counting p k l c s
    → StaysIn p qs s
    → Counting p k l c (check_all qs s)
check_all-Counting p k l c [] s h x = h
check_all-Counting p k l c (a ∷ qs) s h x =
    check_all-Counting p k l c qs (check_result a s).1 (check_result-Counting a s h x.0 x.1) x.2

restored : (r x : ℤ) → r +ℤ (x -ℤ r) ≡ x
restored r x = omega int_laws

balanced : (r c r' x y : ℤ) → r' +ℤ c ≡ y → c ≡ x -ℤ r → r' +ℤ x ≡ r +ℤ y
balanced r c r' x y h k = omega (int_laws, ap above h, ap below h, ap above k, ap below k)

-- A BAT whose register of its phase is open, with statistics of the scripts `k ∷ l` that were read
-- before. Whatever the node answers to any number of checks, if the BAT stays in the phase: the cases
-- that the register gains are those by which the executed cases of the scripts grow between the sample
-- that was last counted before and the one that is last counted then. None is counted twice or lost.
pub check_all-executed :
    (k : String) (l : List String) (qs : List Answer) (s : Sampler)
    → error_db_registering s.bat ≡ true
    → s.has_stat_file ≡ true
    → keys s.error_template.scripts ≡ k ∷ l
    → is_empty s.last_stats ≡ false
    → StaysIn s.bat.traffic_phase qs s
    → (error_db_read_register_counters (check_all qs s).bat).0
        +ℤ executed_in s.bat.traffic_phase (k ∷ l) s.last_stats
      ≡ (error_db_read_register_counters s.bat).0
        +ℤ executed_in s.bat.traffic_phase (k ∷ l) (check_all qs s).last_stats
check_all-executed k l qs s opened file known begun x =
    balanced reg c _ _ _ (check_all-Counting s.bat.traffic_phase k l c qs s start x).balance refl
  where
    reg : ℤ
    reg = (error_db_read_register_counters s.bat).0

    c : ℤ
    c = executed_in s.bat.traffic_phase (k ∷ l) s.last_stats -ℤ reg

    start : Counting s.bat.traffic_phase k l c s
    start = record {
      opened = opened;
      has_file = file;
      known = known;
      begun = begun;
      balance = restored reg _;
    }
