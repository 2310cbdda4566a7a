-- ===== src/Capacity/Failures.antt =====
-- Where the search raises: in the report of a search that is not over, and without validation.
use mathlib.Core.Path.{subst}
use st_tools.Prelude.{
  ◌≡◌, ◌≢◌, ◌⊎◌, inl, inr, refl, ap, ◌∙◌, arith, Bool, true, false, not, ◌||◌, Option, none, some,
  List, [], ◌∷◌, ℕ, zero, suc, ◌+◌, ◌-◌, ◌≤◌, ◌<◌, length, get_elem?, if◌then◌else◌, Option-cases,
  eqb,
}
use st_tools.Prelude.Exec.{Result, ok, err, Exn, index_error, continue, pure, ◌>>◌}
use st_tools.Scheduler.{Visit, loadgen, is_loadgen}
use st_tools.Capacity.{
  Capacity, Config, Tools, Reading, Fsm, initial, search, search_down, validate, finished,
}
use st_tools.Capacity.Table.{step_cps, info_lines, scheduling_info}
use st_tools.Capacity.Search.{
  measure, explore, refresh, is_past, unlock_pl, stop_monitoring, shutdown, close_log, is_finished,
  turn_off,
}
use st_tools.Capacity.States.{Counts}
use st_tools.Capacity.Invariant.{measure_unvalidated}
use st_tools.Capacity.Runs.{Runs, IsFresh, fresh-IsSound, Runs-IsSound}

get_elem?-length :
    (l : List (Option ℕ)) (n : ℕ) (x : Option ℕ) → get_elem? l n ≡ some x → n < length l
get_elem?-length [] n x e = ground (arith, e)
get_elem?-length (y ∷ l) zero x e = omega arith
get_elem?-length (y ∷ l) (suc n) x e = omega (arith, get_elem?-length l n x e)

-- The periods end before the steps do.
info_lines_short :
    (steps count : ℕ) (c : Capacity)
    → count ≤ length c.period_load
    → length c.period_load < count + steps
    → info_lines true steps count c ≡ err index_error
unfolding info_lines
info_lines_short zero count c h i = ground arith
info_lines_short (suc steps) count c h i = elim (Option-cases (get_elem? c.period_load count)) [
  | inl e ↦ simp (e, info_lines) refl
  | inr (x, e) ↦ elim (Option-cases (step_cps count c.base.data_of)) [
    | inl f ↦ simp (e, f, info_lines) refl
    | inr (xs, f) ↦
        simp
          (
            e,
            f,
            info_lines,
            info_lines_short steps (suc count) c (get_elem?-length c.period_load count x e)
                (omega (arith, i)),
          )
          refl
  ]
]

searching_short :
    (m : ℕ) (f : Fsm) (l : List (Option ℕ)) (n t : ℕ)
    → f ≢ initial
    → f ≢ finished
    → Counts (some m) f l n t
    → suc (length l) ≡ n
searching_short m initial l n t i j h = absurd (i refl)
searching_short m finished l n t i j h = absurd (j refl)
searching_short m search l n t i j h = h.0
searching_short m search_down l n t i j h = h.0
searching_short m validate l n t i j h = h.0

close_log-err :
    (k : Config) (d : Capacity) (e : Exn) → scheduling_info k d ≡ err e → close_log k d ≡ (err e, d)
close_log-err k d e h = simp (h, close_log) refl

no_unlock : (unlocks : Bool) (d : Capacity) → d.pl_for_dc ≡ none → unlock_pl unlocks d ≡ (ok tt, d)
unfolding unlock_pl
no_unlock unlocks d p = simp (p, unlock_pl) refl

shutdown_report :
    (b : Bool) (k : Config) (unlocks : Bool) (d : Capacity)
    → d.pl_for_dc ≡ none
    → scheduling_info k (if b then turn_off d else d) ≡ err index_error
    → ((if b then (λ e. unlock_pl unlocks (turn_off e)) else pure tt) >> close_log k) d
      ≡ (err index_error, if b then turn_off d else d)
shutdown_report true k unlocks d p e =
    ap (λ (t : Result (Unit {0}) × Capacity). continue t.0 (λ u. close_log k) t.1)
      (no_unlock unlocks (turn_off d) p)
    ∙ close_log-err k (turn_off d) index_error e
shutdown_report false k unlocks d p e = close_log-err k d index_error e

scheduling_info_short :
    (k : Config) (m : ℕ) (d : Capacity)
    → k.max_load ≡ some m
    → suc (length d.period_load) ≡ d.nof_steps
    → scheduling_info k d ≡ err index_error
unfolding scheduling_info
scheduling_info_short k m d v short =
    rw v (info_lines_short d.nof_steps 0 d (omega arith) (omega (arith, short)))

turned_off_short :
    (b : Bool) (k : Config) (m : ℕ) (d : Capacity)
    → k.max_load ≡ some m
    → suc (length d.period_load) ≡ d.nof_steps
    → scheduling_info k (if b then turn_off d else d) ≡ err index_error
turned_off_short true k m d v short = scheduling_info_short k m (turn_off d) v short
turned_off_short false k m d v short = scheduling_info_short k m d v short

-- A validated search that has begun and is not over, with no processor locked: its report lacks the
-- load of the last step, so that `shutdown` raises `IndexError`, with the thread told to end.
pub shutdown-raises :
    (tools : Tools) (k : Config) (m : ℕ) (unlocks : Bool) (c d : Capacity)
    → IsFresh c
    → Runs tools k c d
    → k.max_load ≡ some m
    → d.fsm ≢ initial
    → d.fsm ≢ finished
    → d.pl_for_dc ≡ none
    → shutdown k unlocks d ≡ (err index_error, if d.base.online then turn_off d else d)
unfolding shutdown
shutdown-raises tools k m unlocks c d fresh run v i j p =
    let short = searching_short m d.fsm d.period_load d.nof_steps d.last_time i j (
      subst (λ o. Counts o d.fsm d.period_load d.nof_steps d.last_time) v
        (Runs-IsSound tools k (fresh-IsSound k c fresh) run)) in
    shutdown_report d.base.online k unlocks d p (turned_off_short d.base.online k m d v short)

unvalidated_states :
    (f : Fsm) (l : List (Option ℕ)) (n t : ℕ)
    → f ≢ finished
    → Counts none f l n t
    → ((f ≡ initial) ⊎ (f ≡ search)) × (l ≡ [])
unvalidated_states initial l n t j h = (inl refl, h.0)
unvalidated_states finished l n t j h = absurd (j refl)
unvalidated_states search l n t j h = (inr refl, h.0)
unvalidated_states search_down l n t j h = absurd h
unvalidated_states validate l n t j h = absurd h

if_true : {A : Type 0} (b : Bool) (x y : A) → b ≡ true → (if b then x else y) ≡ x
if_true true x y e = refl
if_true false x y e = ground (arith, e)

if_false : {A : Type 0} (b : Bool) (x y : A) → b ≡ false → (if b then x else y) ≡ y
if_false false x y e = refl
if_false true x y e = ground (arith, e)

unbegun :
    (d : Capacity) (m : Option ℕ)
    → d.fsm ≡ initial
    → Counts m d.fsm d.period_load d.nof_steps d.last_time
    → d.last_time ≡ 0
unbegun d m e h = (subst (λ f. Counts m f d.period_load d.nof_steps d.last_time) e h).2

explore_past :
    (tools : Tools) (k : Config) (r : Reading) (vs : List Visit) (d : Capacity)
    → d.last_time ≢ 0
    → is_past d.period (r.now - d.last_time) ≡ true
    → explore tools k r vs d ≡ measure tools k r vs d
unfolding explore
explore_past tools k r vs d t past =
    let e : eqb d.last_time 0 ≡ false = ground (arith, t) in simp (e, past, explore) refl

-- Without validation (`max_load` -1) a search that has begun and is not finished, reached by refreshes
-- that did not raise, is still in its first state; and each refresh of the load whose period is over
-- stops the monitor of errors, takes its last register out of the check, and raises `IndexError`; it
-- does nothing else.
pub unvalidated-raises :
    (tools : Tools) (k : Config) (r : Reading) (v : Visit) (vs : List Visit) (c d : Capacity)
    → IsFresh c
    → Runs tools k c d
    → k.max_load ≡ none
    → d.fsm ≢ finished
    → d.last_time ≢ 0
    → d.base.cps_scheduling ≡ true
    → d.base.phase ≡ loadgen
    → is_past d.period (r.now - d.last_time) ≡ true
    → (d.fsm ≡ search) × (refresh tools k r (v ∷ vs) d ≡ (err index_error, stop_monitoring d))
unfolding refresh
unvalidated-raises tools k r v vs c d fresh run u j t cps load past =
    let (s, l) = unvalidated_states d.fsm d.period_load d.nof_steps d.last_time j (
      subst (λ o. Counts o d.fsm d.period_load d.nof_steps d.last_time) u
        (Runs-IsSound tools k (fresh-IsSound k c fresh) run)) in
    elim s [
      | inl e ↦
          absurd (t (unbegun d k.max_load e (Runs-IsSound tools k (fresh-IsSound k c fresh) run)))
      | inr e ↦ (
        e,
        if_true d.base.cps_scheduling _ _ cps
            ∙ if_false (not (is_loadgen d.base.phase) || is_finished d.fsm) _ _ (rw (load, e) refl)
            ∙ explore_past tools k r (v ∷ vs) d t past
            ∙ measure_unvalidated tools k r (v ∷ vs) d u l,
      )
    ]
